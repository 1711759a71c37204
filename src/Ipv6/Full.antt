-- ===== src/Ipv6/Full.antt =====
-- Addresses written in full: eight hexadecatets with single colons between them.
pub mod Prefix
use native.Mathlib.Nat.{pow-suc, mul-le-mul_left, mul-le-mul_right, one-le-pow, mod-eq_of_lt}
use protovalidate_cc.Base.Bits.{bit_or-eq-add, zero-bit_or}
use protovalidate_cc.Base.{
  ℕ, suc, ◌+◌, ◌*◌, ◌^◌, ◌≤◌, ◌<◌, ◌≡◌, ◌≢◌, refl, ap, ◌∙◌, bit_or, true, false, ◌&&◌, ◌||◌, none,
  some, List, [], ◌∷◌, ◌++◌, arith, Bytes, length, ◌==◌,
}
use protovalidate_cc.Ipv6.Outcome.{Result, ok, bind}
use protovalidate_cc.Ipv6.Runs.{
  Runs, full, more, Runs-scan_loop, IsHexadecatet, hexadecatet_lt, round_hexadecatet,
  round_single_colon,
}
use protovalidate_cc.Ipv6.{
  AddressScan, continue_with, shift_left, check_dotted, finish, parse_address_part, round,
  optional_zone, parse_ipv6_address,
}
use protovalidate_cc.Parser.Number.Hexadecimal.{hexadecimal_value}
use protovalidate_cc.Parser.Number.Loop.{Ends, digits_value_inv}
use protovalidate_cc.Parser.Number.{hexadecimal_digit_value}

-- The hexadecatets of a text, each with its value.
pub record Group : Type 0 where
  pub text : Bytes
  pub value : ℕ

abbrev pub IsGroups : List Group → Type 0
IsGroups [] = Unit {0}
IsGroups (g ∷ gs) = IsHexadecatet g.value g.text × IsGroups gs

-- the texts with a colon in front of each but the first, and `rest` behind the last
abbrev pub colon_groups : List Group → Bytes → Bytes
colon_groups [] rest = rest
colon_groups (g ∷ gs) rest = b':' ∷ (g.text ++ colon_groups gs rest)

abbrev pub join : Group → List Group → Bytes → Bytes
join g gs rest = g.text ++ colon_groups gs rest

-- sixteen bits for each
abbrev pub groups_value : ℕ → List Group → ℕ
groups_value acc [] = acc
groups_value acc (g ∷ gs) = groups_value (acc * 2 ^ 16 + g.value) gs

-- The text goes on with neither a hexadecimal digit nor a dot.
abbrev pub Stops : Bytes → Type 0
Stops [] = Unit {0}
Stops (c ∷ _) = (hexadecimal_digit_value c ≡ none) × ((c == b'.') ≡ false)

Stops-Ends : (rest : Bytes) → Stops rest → Ends hexadecimal_digit_value rest
Stops-Ends [] s = tt
Stops-Ends (c ∷ cs) s = s.0

abbrev pub NoDots : Bytes → Type 0
NoDots [] = Unit {0}
NoDots (c ∷ cs) = ((c == b'.') ≡ false) × NoDots cs

digit_no_dot : (c d : ℕ) → hexadecimal_digit_value c ≡ some d → (c == b'.') ≡ false
unfolding hexadecimal_digit_value
digit_no_dot c d h = ground arith

pub hex-NoDots :
    (text : Bytes) (acc : ℕ) {v : ℕ} → hexadecimal_value acc text ≡ some v → NoDots text
hex-NoDots [] acc h = tt
hex-NoDots (c ∷ cs) acc h =
    let (d, found, h') = digits_value_inv 16 hexadecimal_digit_value acc c cs h in
    (digit_no_dot c d found, hex-NoDots cs (acc * 16 + d) h')

-- No dotted quad is seen in two hexadecatets with a colon between them.
two_groups_no_quad :
    (s t rest : Bytes)
    → NoDots s
    → NoDots t
    → Stops rest
    → 1 ≤ length s
    → 1 ≤ length t
    → check_dotted (s ++ (b':' ∷ (t ++ rest))) ≡ false
unfolding check_dotted
two_groups_no_quad [] t rest ns nt r ls lt = absurd (omega arith)
two_groups_no_quad (a ∷ s) [] rest ns nt r ls lt = absurd (omega arith)
two_groups_no_quad (a ∷ []) (d ∷ []) [] ns nt r ls lt = refl
two_groups_no_quad (a ∷ []) (d ∷ []) (e ∷ rest) ns nt r ls lt = ground (arith, nt.0, r.1)
two_groups_no_quad (a ∷ []) (d ∷ e ∷ t) rest ns nt r ls lt = ground (arith, nt.0, nt.1.0)
two_groups_no_quad (a ∷ b ∷ []) (d ∷ t) rest ns nt r ls lt = ground (arith, nt.0, ns.1.0)
two_groups_no_quad (a ∷ b ∷ c ∷ []) (d ∷ t) rest ns nt r ls lt = ground (arith, ns.1.0, ns.1.1.0)
two_groups_no_quad (a ∷ b ∷ c ∷ x ∷ s) (d ∷ t) rest ns nt r ls lt =
    ground (arith, ns.1.0, ns.1.1.0, ns.1.1.1.0)

-- The sixth group is followed by one more, so the test for a dotted quad fails there.
no_quad :
    (i : ℕ) (g : Group) (gs : List Group) (rest : Bytes)
    → i + length gs ≡ 7
    → IsGroups (g ∷ gs)
    → Stops rest
    → ((false || i == 6) && check_dotted (join g gs rest)) ≡ false
no_quad i g [] rest e h r = ground arith
no_quad i g (g' ∷ []) rest e (h, (h', _)) r = ground (
  arith,
  two_groups_no_quad g.text g'.text rest (hex-NoDots g.text 0 h.value)
      (hex-NoDots g'.text 0 h'.value) r h.some_digit h'.some_digit,
)
no_quad i g (g' ∷ g'' ∷ gs) rest e h r = ground arith

-- the value so far, and room for k groups more
pub room_step :
    (k b v : ℕ)
    → v < 2 ^ 16
    → (b + 1) * 65536 ^ suc k ≤ 2 ^ 128
    → (bit_or (shift_left b 16) v ≡ b * 2 ^ 16 + v) × ((b * 2 ^ 16 + v + 1) * 65536 ^ k ≤ 2 ^ 128)
room_step k b v small room =
    let grows : b * 2 ^ 16 + v + 1 ≤ (b + 1) * 65536 = omega arith in
    let scaled : (b * 2 ^ 16 + v + 1) * 65536 ^ k ≤ (b + 1) * 65536 * 65536 ^ k =
      mul-le-mul_right (65536 ^ k) grows in
    let room' : (b + 1) * (65536 ^ k * 65536) ≤ 2 ^ 128 = rw (pow-suc 65536 k) at room in
    let whole : (b + 1) * 65536 * 65536 ^ k ≤ 2 ^ 128 = omega arith in
    let one : (b * 2 ^ 16 + v + 1) * 1 ≤ (b * 2 ^ 16 + v + 1) * 65536 ^ k =
      mul-le-mul_left (b * 2 ^ 16 + v + 1) (one-le-pow k 65536 (omega arith)) in
    let fits : b * 2 ^ 16 < 2 ^ 128 = omega arith in
    (
      bit_or-eq-add 16 b v (shift_left b 16) (mod-eq_of_lt fits) small
          ∙ ap (λ x. x + v) (mod-eq_of_lt fits),
      omega arith,
    )

abbrev pub scanning : ℕ → ℕ → Bytes → AddressScan
scanning b i str = record { str = str; bits = 0; b = b; index = i; double_colon_found = false }

pub hex_no_colon : (c d : ℕ) → hexadecimal_digit_value c ≡ some d → c ≢ b':'
unfolding hexadecimal_digit_value
hex_no_colon c d h = ground arith

pub colon_stops : (str : Bytes) → Ends hexadecimal_digit_value (b':' ∷ str)
unfolding hexadecimal_digit_value
colon_stops str = refl

groups_end :
    (gs : List Group) (rest : Bytes)
    → Stops rest
    → Ends hexadecimal_digit_value (colon_groups gs rest)
groups_end [] rest r = Stops-Ends rest r
groups_end (g ∷ gs) rest r = colon_stops (g.text ++ colon_groups gs rest)

-- The colon in front of a hexadecatet is read by a round of its own.
pub Runs-colon :
    (b i : ℕ) (text str : Bytes) {v : ℕ} {r : Result AddressScan}
    → IsHexadecatet v text
    → 0 < i
    → i < 8
    → Runs (scanning b i (text ++ str)) r
    → Runs (scanning b i (b':' ∷ (text ++ str))) r
Runs-colon b i [] str h pos lt run = absurd (omega (arith, h.some_digit))
Runs-colon b i (c ∷ text) str h pos lt run =
    let (d, found, _) = digits_value_inv 16 hexadecimal_digit_value 0 c text h.value in
    more lt (round_single_colon 0 b i false c (text ++ str) (hex_no_colon c d found) pos) run

round_group :
    (gs : List Group) (g : Group) (rest : Bytes) (b i j : ℕ)
    → i + length gs ≡ 7
    → i + 1 ≡ j
    → IsGroups (g ∷ gs)
    → Stops rest
    → (b + 1) * 65536 ^ length (g ∷ gs) ≤ 2 ^ 128
    → round (scanning b i (join g gs rest))
      ≡ continue_with (scanning (b * 2 ^ 16 + g.value) j (colon_groups gs rest))
round_group gs g rest b i j e next h r room =
    round_hexadecatet 0 b i false g.text (colon_groups gs rest) h.0 (groups_end gs rest r)
      (no_quad i g gs rest e h r)
    ∙ cc ((room_step (length gs) b g.value (hexadecatet_lt g.text h.0) room).0, next)

-- From the i-th group on, the loop reads the groups that are left.
Runs-groups :
    (gs : List Group) (g : Group) (rest : Bytes) (b i : ℕ)
    → i + length gs ≡ 7
    → IsGroups (g ∷ gs)
    → Stops rest
    → (b + 1) * 65536 ^ length (g ∷ gs) ≤ 2 ^ 128
    → Runs (scanning b i (join g gs rest)) (ok (scanning (groups_value b (g ∷ gs)) 8 rest))
Runs-groups [] g rest b i e h r room =
    more (omega arith) (round_group [] g rest b i 8 e (omega arith) h r room) (full (omega arith))
Runs-groups (g' ∷ gs) g rest b i e h r room =
    more (omega arith) (round_group (g' ∷ gs) g rest b i (i + 1) e refl h r room) (
      Runs-colon _ (i + 1) g'.text (colon_groups gs rest) h.1.0 (omega arith) (omega arith) (
        Runs-groups gs g' rest _ (i + 1) (omega arith) h.1 r
          (room_step (length (g' ∷ gs)) b g.value (hexadecatet_lt g.text h.0) room).1))

-- Eight hexadecatets with colons between them are an address of their 128 bits, whatever spelling
-- of each, up to what follows.
pub parse_address_part-full :
    (g : Group) (gs : List Group) (rest : Bytes)
    → length gs ≡ 7
    → IsGroups (g ∷ gs)
    → Stops rest
    → parse_address_part (join g gs rest) ≡ ok (groups_value 0 (g ∷ gs), rest)
unfolding parse_address_part finish
parse_address_part-full g gs rest e h r =
    let len : length (g ∷ gs) ≡ 8 = omega arith in
    rw
      (Runs-scan_loop (suc (length (join g gs rest)))
        (Runs-groups gs g rest 0 0 (omega arith) h r (rw len (omega arith))) (omega arith))
      (rw zero-bit_or)

-- Eight hexadecatets with colons between them, with nothing or a zone id behind them, are an
-- IPv6 address of the 128 bits of the groups; what stands behind starts with neither a
-- hexadecimal digit nor a dot.
pub parse_ipv6_address-full :
    (g : Group) (gs : List Group) (rest : Bytes)
    → length gs ≡ 7
    → IsGroups (g ∷ gs)
    → Stops rest
    → optional_zone rest ≡ true
    → parse_ipv6_address (join g gs rest) ≡ ok (record { bits = groups_value 0 (g ∷ gs) })
unfolding parse_ipv6_address
parse_ipv6_address-full g gs rest e h r zone =
    rw (parse_address_part-full g gs rest e h r) (rw zone)
