-- ===== src/Client/PairCode/Phone.antt =====
-- The check of the phone number in `request_pair_code` of waepic-client/src/client/auth.rs.
pub mod Accepted
use Prim.Native.Char.{Char, code}
use Prim.Native.String.{String, [], ◌∷◌}
use waepic.Prelude.{ℕ, suc, Bool, true, false, ◌&&◌, ◌==◌, nat_eq, leb, ltb, if◌then◌else◌}
use waepic.Prelude.Outcome.{Result, ok, err}
use waepic.Client.Error.{ClientError, internal}

abbrev pub is_ascii_digit : Char → Bool
is_ascii_digit c = leb 48 (code c) && leb (code c) 57

-- `chars().filter(char::is_ascii_digit).collect()`
abbrev pub digits_of : String → String
digits_of [] = []
digits_of (c ∷ s) = let rest = digits_of s in if is_ascii_digit c then c ∷ rest else rest

-- `len` of a text whose characters take one byte each.
abbrev pub len : String → ℕ
len [] = 0
len (c ∷ s) = suc (len s)

abbrev pub starts_with_0 : String → Bool
starts_with_0 [] = false
starts_with_0 (c ∷ s) = code c == 48

abbrev pub check_sanitized : String → Result ClientError String
check_sanitized sanitized =
    if len sanitized == 0
    then err (internal "phone number must contain at least one digit")
    else if ltb (len sanitized) 7
    then err (internal "phone number is too short (must be at least 7 digits)")
    else if starts_with_0 sanitized
    then err (internal "phone number must not start with 0 (use international format)")
    else ok sanitized

abbrev pub sanitize : String → Result ClientError String
sanitize phone_number = check_sanitized (digits_of phone_number)
