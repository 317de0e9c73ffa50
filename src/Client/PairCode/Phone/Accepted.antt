-- ===== src/Client/PairCode/Phone/Accepted.antt =====
-- Which phone numbers are accepted.
use mathlib.Core.Path.{subst}
use Prim.Native.String.{String, [], ◌∷◌}
use waepic.Prelude.{
  ◌≤◌, true, false, nat_eq, ◌≡◌, refl, ap, sym, ◌∙◌, arith, if_intro, if_true, ◌<◌, ◌⊎◌, inl, inr,
}
use waepic.Prelude.Outcome.{ok, err, Result-cases}
use waepic.Client.Error.{ClientError}
use waepic.Client.PairCode.Phone.{
  is_ascii_digit, digits_of, len, starts_with_0, check_sanitized, sanitize,
}

abbrev pub AllDigits : String → Type 0
AllDigits [] = Unit
AllDigits (c ∷ s) = (is_ascii_digit c ≡ true) × AllDigits s

digits_of-AllDigits : (s : String) → AllDigits (digits_of s)
digits_of-AllDigits [] = tt
digits_of-AllDigits (c ∷ s) =
    if_intro AllDigits (is_ascii_digit c) (c ∷ digits_of s) (digits_of s)
      (λ digit. (digit, digits_of-AllDigits s)) (λ other. digits_of-AllDigits s)

digits_of_digits : (s : String) → AllDigits s → digits_of s ≡ s
digits_of_digits [] h = refl
digits_of_digits (c ∷ s) h = if_true _ _ h.0 ∙ ap (λ t. c ∷ t) (digits_of_digits s h.1)

check_sanitized-ok :
    (s t : String) → check_sanitized s ≡ ok t → (s ≡ t) × (7 ≤ len s) × (starts_with_0 s ≡ false)
check_sanitized-ok s t h = ground arith

check_sanitized-err :
    (s : String) (e : ClientError)
    → check_sanitized s ≡ err e
    → (len s < 7) ⊎ (starts_with_0 s ≡ true)
check_sanitized-err s e h = ground arith

-- The number that is returned is the digits of the text, at least seven of them and the first no
-- 0, and it is accepted again as it is; where none is, there are fewer digits or a leading 0.
pub sanitize-Accepts :
    (phone_number : String)
    → ((t : String) × (sanitize phone_number ≡ ok t)
        × (t ≡ digits_of phone_number)
        × AllDigits t
        × (7 ≤ len t)
        × (starts_with_0 t ≡ false)
        × (sanitize t ≡ ok t))
      ⊎ ((e : ClientError) × (sanitize phone_number ≡ err e)
          × ((len (digits_of phone_number) < 7) ⊎ (starts_with_0 (digits_of phone_number) ≡ true)))
sanitize-Accepts phone_number =
    let s = digits_of phone_number in
    elim (Result-cases (check_sanitized s)) [
      | inl (t, fine) ↦
          let (same, long, leads) = check_sanitized-ok s t fine in
          let digits = digits_of-AllDigits phone_number in
          inl (
            t,
            fine,
            sym same,
            subst AllDigits same digits,
            subst (λ x. 7 ≤ len x) same long,
            subst (λ x. starts_with_0 x ≡ false) same leads,
            subst (λ x. check_sanitized (digits_of x) ≡ ok t) same
                (ap check_sanitized (digits_of_digits s digits) ∙ fine),
          )
      | inr (e, refused) ↦ inr (e, refused, check_sanitized-err s e refused)
    ]
