-- ===== src/Machines/Enrollments.antt =====
-- src/prodeo/machines/enrollments.py: the enrollment tokens. The file holds what the cache holds after
-- each write, or what `document` says at boot: none for a missing or an unreadable file. SHA-256 and
-- the draws of `secrets` are parameters.
use command_center.Base.{
  ℕ, String, Option, none, some, List, [], ◌∷◌, Bool, true, false, not, ◌||◌, if◌then◌else◌, ◌==◌,
  ==_refl, string_Eq, nat_Eq, ◌≡◌, refl, ap, sym, ◌∙◌, Bool-cases, Option-cases, inl, inr, some_inj,
}
use command_center.Base.Dict.{Dict, get, put, get-put_self, get-put_ne}

pub record Enrollment : Type 0 where
  pub label : String
  pub created_at : ℕ
  pub claimed_by : String

-- `EnrollmentState.tokens`, by digest.
abbrev pub Tokens : Type 0
Tokens = Dict String Enrollment

pub record Enrollments : Type 0 where
  pub document : Option Tokens
  pub cache : Option Tokens

-- `_read`
unfoldable pub tokens : Enrollments → Tokens
tokens e = elim e.cache [ some ts ↦ ts | none ↦ elim e.document [ some ts ↦ ts | none ↦ [] ] ]

abbrev read : Enrollments → Enrollments
read e = record e { cache = some (tokens e) }

-- `_write`
abbrev write : Enrollments → Tokens → Enrollments
write e ts = record e { document = some ts; cache = some ts }

-- `claimed_by not in ("", node)`
abbrev pub conflicts : Enrollment → String → Bool
conflicts r node = not (r.claimed_by == "" || r.claimed_by == node)

unclaimed :
    (r : Enrollment) (node : String)
    → conflicts r node ≡ false
    → (r.claimed_by == node) ≡ false
    → (r.claimed_by == "") ≡ true
unclaimed r node free new = elim (Bool-cases (r.claimed_by == "")) [
  | inl empty ↦ empty
  | inr taken ↦ absurd (cc (rw (taken, new) at free))
]

module _ (digest : String → String) where
  -- `mint`, once the token is drawn.
  unfoldable pub mint : Enrollments → String → String → ℕ → Enrollments
  unfolding tokens
  mint e token label now =
      write e (
        put (tokens e) (digest token) (record { label = label; created_at = now; claimed_by = "" }))

  unfoldable pub claim_found : Enrollments → String → String → Enrollment → Bool × Enrollments
  unfolding tokens
  claim_found e token node r =
      if conflicts r node
      then (false, read e)
      else if not (r.claimed_by == node)
      then (true, write e (put (tokens e) (digest token) (record r { claimed_by = node })))
      else (true, read e)

  unfoldable pub claim : Enrollments → String → String → Bool × Enrollments
  unfolding tokens claim_found
  claim e token node = elim (get (tokens e) (digest token)) [
    | none ↦ (false, read e)
    | some r ↦ claim_found e token node r
  ]

  -- Claims in the order in which they reach the hub.
  unfoldable pub claims : Enrollments → List (String × String) → Enrollments
  unfolding claim
  claims e [] = e
  claims e ((token, node) ∷ rest) = claims (claim e token node).1 rest

  -- This token is known and held by this node.
  pub record IsHeld (e : Enrollments) (token node : String) : Type 0 where
    pub entry : Enrollment
    pub found : get (tokens e) (digest token) ≡ some entry
    pub by : entry.claimed_by ≡ node

  module _ (e : Enrollments) (token node : String) (named : (node == "") ≡ false)
      (held : IsHeld e token node) where
    claim_found-IsHeld :
        (other_token other : String) (r : Enrollment)
        → get (tokens e) (digest other_token) ≡ some r
        → IsHeld (claim_found e other_token other r).1 token node
    unfolding claim_found tokens
    claim_found-IsHeld other_token other r found = elim (Bool-cases (conflicts r other)) [
      | inl taken ↦
          rw (taken, claim_found) (record { entry = held.entry; found = held.found; by = held.by })
      | inr free ↦ elim (Bool-cases (r.claimed_by == other)) [
        | inl again ↦
            rw (free, again, claim_found)
              (record { entry = held.entry; found = held.found; by = held.by })
        | inr new ↦
            rw (free, new, claim_found)
              (record {
                entry = held.entry;
                found =
                    get-put_ne (tokens e) (digest other_token) (digest token) _
                      (elim (Bool-cases (digest other_token == digest token)) [
                        | inl same ↦
                            let one = some_inj (
                              sym found
                              ∙ ap (get (tokens e))
                                  ((string_Eq.equal_iff (digest other_token) (digest token)).0 same)
                              ∙ held.found) in
                            absurd (
                              cc (
                                unclaimed r other free new,
                                ap (λ (x : Enrollment). x.claimed_by == "") one
                                    ∙ ap (λ n. n == "") held.by
                                    ∙ named,
                              ))
                        | inr apart ↦ apart
                      ])
                    ∙ held.found;
                by = held.by;
              })
      ]
    ]

    claim-IsHeld : (other_token other : String) → IsHeld (claim e other_token other).1 token node
    unfolding claim tokens
    claim-IsHeld other_token other = elim (Option-cases (get (tokens e) (digest other_token))) [
      | inl unknown ↦
          rw (unknown, claim) (record { entry = held.entry; found = held.found; by = held.by })
      | inr (r, found) ↦ rw (found, claim) (claim_found-IsHeld other_token other r found)
    ]

  claims-IsHeld :
      (e : Enrollments) (cs : List (String × String)) (token node : String)
      → (node == "") ≡ false
      → IsHeld e token node
      → IsHeld (claims e cs) token node
  unfolding claims
  claims-IsHeld e [] token node named held = held
  claims-IsHeld e ((t, n) ∷ cs) token node named held =
      claims-IsHeld (claim e t n).1 cs token node named (claim-IsHeld e token node named held t n)

  -- An accepted claim leaves the token held by its node.
  accepted-IsHeld :
      (e : Enrollments) (token node : String)
      → (claim e token node).0 ≡ true
      → IsHeld (claim e token node).1 token node
  unfolding claim claim_found tokens
  accepted-IsHeld e token node accepted = elim (Option-cases (get (tokens e) (digest token))) [
    | inl unknown ↦ absurd (cc (rw (unknown, claim) at accepted))
    | inr (r, found) ↦ elim (Bool-cases (conflicts r node)) [
      | inl taken ↦ absurd (cc (rw (found, claim, taken, claim_found) at accepted))
      | inr free ↦ elim (Bool-cases (r.claimed_by == node)) [
        | inl again ↦
            rw (found, claim, free, again, claim_found)
              (record {
                entry = r;
                found = found;
                by = (string_Eq.equal_iff r.claimed_by node).0 again;
              })
        | inr new ↦
            rw (found, claim, free, new, claim_found)
              (record {
                entry = record r { claimed_by = node };
                found = get-put_self (tokens e) (digest token) (digest token) _ refl;
                by = refl;
              })
      ]
    ]
  ]

  -- What a holder and another node are told.
  held_claims :
      (e : Enrollments) (token node other : String)
      → (node == "") ≡ false
      → (node == other) ≡ false
      → IsHeld e token node
      → ((claim e token node).0 ≡ true) × ((claim e token other).0 ≡ false)
  unfolding claim claim_found tokens
  held_claims e token node other named ne held = (
    rw (held.found, claim, held.by, named, ==_refl node, claim_found) refl,
    rw (held.found, claim, held.by, named, ne, claim_found) refl,
  )

  -- A token binds to the first node that claims it: once a claim is accepted, whatever claims follow, the
  -- same node's claim is accepted again, and the claim of any other node is refused.
  pub token_binds :
      (e : Enrollments) (token node other : String) (cs : List (String × String))
      → (node == "") ≡ false
      → (node == other) ≡ false
      → (claim e token node).0 ≡ true
      → let e' = claims (claim e token node).1 cs in
        ((claim e' token node).0 ≡ true) × ((claim e' token other).0 ≡ false)
  token_binds e token node other cs named ne accepted =
      held_claims (claims (claim e token node).1 cs) token node other named ne (
        claims-IsHeld (claim e token node).1 cs token node named
          (accepted-IsHeld e token node accepted))
