-- ===== src/Adapters/Manager/Output.antt =====
-- The cap on the output of an agent in src/prodeo/adapters/manager.py.
use command_center.Base.{
  ℕ, zero, suc, ◌≤◌, String, Option, none, some, [], ◌∷◌, true, false, ltb, ◌==◌, string_Eq, ◌≡◌,
  refl, ap, ◌∙◌, arith, Bool-cases, inl, inr, ◌⊎◌,
}
use command_center.Base.Dict.{Dict, get, IsAbsent, get-update_absent}
use command_center.Base.Json.{Json}
use command_center.Base.Text.{chars, take_chars}
use command_center.Events.Envelope.{Payload, text, flag}
use command_center.Adapters.Model.{OutputObservation}
use command_center.Adapters.Manager.Observe.{max_output_chars, at_field, any_values, output_payload}

chars-take_chars : (n : ℕ) (s : String) → chars (take_chars n s) ≤ n
unfolding chars take_chars
chars-take_chars zero s = omega arith
chars-take_chars (suc n) String.[] = omega arith
chars-take_chars (suc n) (String.◌∷◌ c s) = omega (arith, chars-take_chars n s)

take_chars_all : (n : ℕ) (s : String) → chars s ≤ n → take_chars n s ≡ s
unfolding chars take_chars
take_chars_all zero String.[] short = refl
take_chars_all zero (String.◌∷◌ c s) short = absurd (omega arith)
take_chars_all (suc n) String.[] short = refl
take_chars_all (suc n) (String.◌∷◌ c s) short = ap (String.◌∷◌ c) (take_chars_all n s (omega arith))

any_values-IsAbsent : (k : String) (d : Dict String Json) → IsAbsent k d → IsAbsent k (any_values d)
any_values-IsAbsent k [] v = tt
any_values-IsAbsent k ((j, x) ∷ d) (ne, v) = (ne, any_values-IsAbsent k d v)

-- The text that is published, and the flag that tells whether it was cut.
abbrev pub IsCapped : String → Payload → Type 0
IsCapped s p =
    (cut : String) × (get p "text" ≡ some (text cut))
    × (chars cut ≤ max_output_chars)
    × ((get p "truncated" ≡ some (flag true)) × (suc max_output_chars ≤ chars s)
        ⊎ (get p "truncated" ≡ some (flag false)) × (cut ≡ s))

module _ (obs : OutputObservation) (k : String) (at_k : IsAbsent k (at_field obs.at))
    (absent : IsAbsent k obs.metadata) where
  own_field :
      get (output_payload obs) k
      ≡ get
          (("role", text obs.role)
            ∷ ("text", text (take_chars max_output_chars obs.text))
            ∷ ("truncated", flag (ltb max_output_chars (chars obs.text)))
            ∷ [])
          k
  unfolding output_payload
  own_field =
      get-update_absent _ (any_values obs.metadata) k (any_values-IsAbsent k obs.metadata absent)
      ∙ get-update_absent _ (at_field obs.at) k at_k

at_field-IsAbsent : (k : String) (at : Option ℕ) → ("at" == k) ≡ false → IsAbsent k (at_field at)
at_field-IsAbsent k none ne = tt
at_field-IsAbsent k (some t) ne = (ne, tt)

-- Unless the adapter's metadata has a text or a flag of its own, a published output has at most 20000
-- characters of text, and its flag says whether that is all of it.
pub output_payload-IsCapped :
    (obs : OutputObservation)
    → IsAbsent "text" obs.metadata
    → IsAbsent "truncated" obs.metadata
    → IsCapped obs.text (output_payload obs)
unfolding get
output_payload-IsCapped obs no_text no_flag =
    let cut = take_chars max_output_chars obs.text in
    let texts = own_field obs "text" (at_field-IsAbsent "text" obs.at refl) no_text in
    let flags = own_field obs "truncated" (at_field-IsAbsent "truncated" obs.at refl) no_flag in
    (
      cut,
      texts,
      chars-take_chars max_output_chars obs.text,
      elim (Bool-cases (ltb max_output_chars (chars obs.text))) [
        | inl long ↦ inl (flags ∙ ap (λ b. some (flag b)) long, ground arith)
        | inr short ↦ inr (
          flags ∙ ap (λ b. some (flag b)) short,
          take_chars_all max_output_chars obs.text (ground arith),
        )
      ],
    )
