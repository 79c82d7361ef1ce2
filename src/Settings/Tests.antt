-- ===== src/Settings/Tests.antt =====
-- Settings from three sources, and the theorems at them.
use recall.Prelude.{◌≡◌, refl, none, [], ◌∷◌, Bytes, bytes_eq, bytes_Eq, Option, codes}
use recall.Map.{get}
use recall.Run.{ok}
use recall.Config.{IpAddr}
use recall.Config.Tests.{three}
use recall.Settings.{Values, number, all_digits, parse_digits, from_sources}
use recall.Settings.Merged.{first_of}
use recall.Settings.Loaded.{Ends, from_sources-Ends}

abbrev workers : Bytes
workers = codes "RECALL_WORKERS"

abbrev file : Values
file = (workers, codes "1") ∷ (codes "RECALL_IO_THREADS", codes "1") ∷ []

abbrev process : Values
process = (workers, codes "2") ∷ []

abbrev no_address : Bytes → Option IpAddr
no_address text = none

digits_read : number workers (codes "64") ≡ ok 64
unfolding number all_digits parse_digits
digits_read = refl

abbrev given : Bytes → Option Bytes
given key = first_of (get key []) (first_of (get key process) (get key file))

from_sources-Ends_example :
    Ends no_address three given (from_sources no_address three file process [])
unfolding get bytes_eq
from_sources-Ends_example =
    from_sources-Ends no_address three file process [] (refl, (refl, tt)) (refl, tt) tt
