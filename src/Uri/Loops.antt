-- ===== src/Uri/Loops.antt =====
-- The loops of uri.cc that are `skip`, and the fuel that it hands out.
use protovalidate_cc.Base.{ℕ, ◌≤◌, ◌<◌, ◌≡◌, Bool, true, false, Bytes, length}
use protovalidate_cc.Uri.Language.{Language}
use protovalidate_cc.Uri.Steps.{Method, skip_rounds, skip}

abbrev HasBytes : Language → Type 0
HasBytes P = (s : Bytes) → P s → 1 ≤ length s

-- what answers `true` leaves a shorter view
abbrev Shorter : Bytes → Bool × Bytes → Type 0
Shorter s (true, t) = length t < length s
Shorter s (false, t) = Unit {0}

abbrev Shrinks : Method → Type 0
Shrinks p = (s : Bytes) → Shorter s (p s)

-- a loop whose fuel makes the same of a view as that of `skip`
abbrev pub Ends : ℕ → Bytes → Method → Type 0
Ends fuel s p = skip_rounds fuel p s ≡ skip p s
