-- ===== src/Protocol/Limits.antt =====
-- The limits of the request decoder of crates/recall-protocol/src/lib.rs.
use recall.Prelude.{ℕ, ltb, ◌==◌, ◌||◌, codes, if◌then◌else◌}
use recall.Run.{Run, ok, err}

pub record Limits : Type 0 where
  pub max_frame_bytes : ℕ
  pub max_bulk_bytes : ℕ
  pub max_arguments : ℕ
  pub max_header_bytes : ℕ

-- `Limits::validate`
unfoldable pub validate_limits : Limits → Run (Unit {0})
validate_limits l =
    if ltb l.max_frame_bytes 16
      || ltb l.max_frame_bytes l.max_bulk_bytes
      || l.max_arguments == 0
      || ltb l.max_header_bytes 4
      || ltb l.max_frame_bytes l.max_header_bytes
    then err (codes "invalid protocol limits")
    else ok tt
