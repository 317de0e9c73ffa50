-- ===== src/Client/Handlers/Numbers.antt =====
-- `str::parse` for the integers that waepic-client/src/client/handlers.rs reads out of attributes.
use Prim.Native.Char.{Char, code}
use Prim.Native.String.{String, [], ◌∷◌}
use waepic.Prelude.{
  ℕ, zero, suc, ◌+◌, ◌-◌, ◌*◌, ◌^◌, ℤ, pos, negsuc, Option, none, some, ◌&&◌, ◌==◌, nat_eq, leb,
  ltb, if◌then◌else◌,
}
use waepic.Client.Pairing.Nodes.{then_some}

abbrev pub digit_of : Char → Option ℕ
digit_of c = if leb 48 (code c) && leb (code c) 57 then some (code c - 48) else none

abbrev pub digits_from : ℕ → String → Option ℕ
digits_from n [] = some n
digits_from n (c ∷ s) = then_some (digit_of c) (λ d. digits_from (n * 10 + d) s)

-- One digit at least.
abbrev pub magnitude : String → Option ℕ
magnitude [] = none
magnitude (c ∷ s) = digits_from 0 (c ∷ s)

abbrev pub below : ℕ → Option ℕ → Option ℕ
below bound n = then_some n (λ k. if ltb k bound then some k else none)

-- `parse::<u64>()` has the bound 2^64, and `parse::<u32>()` has 2^32.
abbrev pub parse_unsigned : ℕ → String → Option ℕ
parse_unsigned bound [] = none
parse_unsigned bound (c ∷ s) = below bound (if code c == 43 then magnitude s else magnitude (c ∷ s))

abbrev pub negated : ℕ → ℤ
negated zero = pos 0
negated (suc n) = negsuc n

abbrev pub parse_i32 : String → Option ℤ
parse_i32 [] = none
parse_i32 (c ∷ s) =
    if code c == 45
    then then_some (below (2 ^ 31 + 1) (magnitude s)) (λ n. some (negated n))
    else then_some (below (2 ^ 31) (if code c == 43 then magnitude s else magnitude (c ∷ s)))
        (λ n. some (pos n))

abbrev pub parse_u64 : String → Option ℕ
parse_u64 = parse_unsigned (2 ^ 64)

abbrev pub parse_u32 : String → Option ℕ
parse_u32 = parse_unsigned (2 ^ 32)
