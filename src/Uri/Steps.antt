-- ===== src/Uri/Steps.antt =====
-- How the methods of uri.cc are put together: `&&` and `||` on methods that change `str`, saving and
-- restoring the view, the loops, and the character sequences of `UriParser`.
use protovalidate_cc.Base.{ℕ, zero, suc, Bool, true, false, List, [], ◌∷◌, ◌==◌, Bytes, length}
use protovalidate_cc.Parser.Chars.{alpha, num, char, concat_ranges}

abbrev pub Method : Type 0
Method = Bytes → Bool × Bytes

abbrev pub and_then : Bool × Bytes → Method → Bool × Bytes
and_then (true, s) q = q s
and_then (false, s) q = (false, s)

abbrev pub or_else : Bool × Bytes → Method → Bool × Bytes
or_else (true, s) q = (true, s)
or_else (false, s) q = q s

infixr 35 ◌&&&◌
infixr 30 ◌|||◌
-- `p() && q()`, evaluated from the left
abbrev pub ◌&&&◌ : Method → Method → Method
◌&&&◌ p q s = and_then (p s) q

-- `p() || q()`
abbrev pub ◌|||◌ : Method → Method → Method
◌|||◌ p q s = or_else (p s) q

-- `str = start` on the way to `return false`
abbrev pub restore : Bytes → Bool × Bytes → Bool × Bytes
restore start (true, s) = (true, s)
restore start (false, s) = (false, start)

abbrev pub restoring : Method → Method
restoring p start = restore start (p start)

-- a look at the view, which stays as it is
abbrev pub test : (Bytes → Bool) → Method
test p s = (p s, s)

-- `!str.empty() && str[0] == c`
abbrev pub peek : ℕ → Bytes → Bool
peek c [] = false
peek c (d ∷ s) = d == c

-- `while (p()) {}`. Each round that goes on consumes a byte: `skip` gives fuel for all and one.
unfoldable pub skip_rounds : ℕ → Method → Bytes → Bytes
skip_rounds zero p s = s
skip_rounds (suc fuel) p s =
    let (more, t) = p s in elim more [ true ↦ skip_rounds fuel p t | false ↦ t ]

unfoldable pub skip : Method → Bytes → Bytes
unfolding skip_rounds
skip p s = skip_rounds (suc (length s)) p s

unfoldable pub unreserved : List ℕ
unfolding alpha num char concat_ranges
unreserved = concat_ranges (alpha ∷ num ∷ char b'-' ∷ char b'_' ∷ char b'.' ∷ char b'~' ∷ [])

unfoldable pub sub_delims : List ℕ
unfolding char concat_ranges
sub_delims = concat_ranges (
    char b'!'
    ∷ char b'$'
    ∷ char b'&'
    ∷ char b'\''
    ∷ char b'('
    ∷ char b')'
    ∷ char b'*'
    ∷ char b'+'
    ∷ char b','
    ∷ char b';'
    ∷ char b'='
    ∷ [])
