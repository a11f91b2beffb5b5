-- ===== src/Gateway/Ids.antt =====
-- The ids that the routes take, apart from the pattern by which they test them.
use Prim.Native.Char.{code}
use bighead.Common.{
  ℕ, zero, suc, ◌≤◌, String, Bool, true, ◌&&◌, ◌≡◌, refl, ◌↔◌, ◌⊎◌, List, [], ◌∷◌, arith,
  and-eq-true,
}
use bighead.Realtime.Protocol.{is_hex, is_dash, matches, times}
use bighead.Gateway.{is_version, is_variant, is_entity_id}

-- The number of a hexadecimal digit, of a dash, of a digit from 1 to 8, and of 8, 9, a or b.
abbrev pub IsHexDigit : ℕ → Type 0
IsHexDigit c = ((48 ≤ c) × (c ≤ 57)) ⊎ ((97 ≤ c) × (c ≤ 102)) ⊎ ((65 ≤ c) × (c ≤ 70))

abbrev pub IsDash : ℕ → Type 0
IsDash c = c ≡ 45

abbrev pub IsVersionDigit : ℕ → Type 0
IsVersionDigit c = (49 ≤ c) × (c ≤ 56)

abbrev pub IsVariantDigit : ℕ → Type 0
IsVariantDigit c = (c ≡ 56) ⊎ (c ≡ 57) ⊎ (c ≡ 97) ⊎ (c ≡ 98) ⊎ (c ≡ 65) ⊎ (c ≡ 66)

abbrev pub repeated : ℕ → (ℕ → Type 0) → List (ℕ → Type 0) → List (ℕ → Type 0)
repeated zero Q rest = rest
repeated (suc n) Q rest = Q ∷ repeated n Q rest

-- The characters of the text are of these kinds, one after the other, from end to end.
abbrev pub Each : List (ℕ → Type 0) → String → Type 0
Each [] String.[] = Unit
Each (Q ∷ Qs) (String.◌∷◌ c s) = Q (code c) × Each Qs s
Each _ _ = ⊥

-- Groups of 8, 4, 4, 4 and 12 hexadecimal digits with dashes between them, the third of which begins
-- with a digit from 1 to 8 and the fourth with 8, 9, a or b.
abbrev pub IsUuid : String → Type 0
IsUuid = Each (
    repeated 8 IsHexDigit (
      IsDash
      ∷ repeated 4 IsHexDigit (
          IsDash
          ∷ IsVersionDigit
          ∷ repeated 3 IsHexDigit (
              IsDash
              ∷ IsVariantDigit
              ∷ repeated 3 IsHexDigit (IsDash ∷ repeated 12 IsHexDigit [])))))

-- The tests and the kinds stand for each other, one after the other.
data Aligned : List (ℕ → Bool) → List (ℕ → Type 0) → Type 1 where
  nothing : Aligned [] []
  kind :
      {p : ℕ → Bool} {Q : ℕ → Type 0} {ps : List (ℕ → Bool)} {Qs : List (ℕ → Type 0)}
      → ((c : ℕ) → (p c ≡ true) ↔ Q c)
      → Aligned ps Qs
      → Aligned (p ∷ ps) (Q ∷ Qs)

matches-Each :
    {ps : List (ℕ → Bool)} {Qs : List (ℕ → Type 0)} (s : String)
    → Aligned ps Qs
    → (matches ps s ≡ true) ↔ Each Qs s
unfolding matches
matches-Each String.[] nothing = (λ h. tt, λ h. refl)
matches-Each (String.◌∷◌ c s) nothing = (λ h. cc, λ h. elim h [ ])
matches-Each String.[] (kind same a) = (λ h. cc, λ h. elim h [ ])
matches-Each (String.◌∷◌ c s) (kind same a) =
    let (sound, complete) = matches-Each s a in
    (
      λ h. let (here, later) = and-eq-true _ _ h in ((same (code c)).0 here, sound later),
      λ h. both _ _ ((same (code c)).1 h.0) (complete h.1),
    )
  where
    both : (x y : Bool) → x ≡ true → y ≡ true → (x && y) ≡ true
    both x y h k = ground (arith, h, k)

is_hex-IsHexDigit : (c : ℕ) → (is_hex c ≡ true) ↔ IsHexDigit c
unfolding is_hex
is_hex-IsHexDigit c = (λ h. ground (arith, h), λ h. ground (arith, h))

is_dash-IsDash : (c : ℕ) → (is_dash c ≡ true) ↔ IsDash c
is_dash-IsDash c = (λ h. ground (arith, h), λ h. ground (arith, h))

is_version-IsVersionDigit : (c : ℕ) → (is_version c ≡ true) ↔ IsVersionDigit c
is_version-IsVersionDigit c = (λ h. ground (arith, h), λ h. ground (arith, h))

is_variant-IsVariantDigit : (c : ℕ) → (is_variant c ≡ true) ↔ IsVariantDigit c
is_variant-IsVariantDigit c = (λ h. ground (arith, h), λ h. ground (arith, h))

hex_digits :
    (n : ℕ) {ps : List (ℕ → Bool)} {Qs : List (ℕ → Type 0)}
    → Aligned ps Qs
    → Aligned (times n is_hex ps) (repeated n IsHexDigit Qs)
hex_digits zero k = k
hex_digits (suc n) k = kind is_hex-IsHexDigit (hex_digits n k)

-- The pattern takes these ids and no other text.
pub is_entity_id_iff : (text : String) → (is_entity_id text ≡ true) ↔ IsUuid text
unfolding is_entity_id
is_entity_id_iff text = matches-Each text (
    hex_digits 8 (
      kind is_dash-IsDash (
        hex_digits 4 (
          kind is_dash-IsDash (
            kind is_version-IsVersionDigit (
              hex_digits 3 (
                kind is_dash-IsDash (
                  kind is_variant-IsVariantDigit
                    (hex_digits 3 (kind is_dash-IsDash (hex_digits 12 nothing)))))))))))
