-- ===== src/Presence/Tracker/Lazy.antt =====
-- Expiry on reading, in src/prodeo/presence/tracker.py, cannot be told from clients that are never
-- removed and are only judged by their last heartbeat.
use command_center.Base.{
  ℕ, ◌≤◌, ◌<◌, String, Option, none, some, List, [], ◌∷◌, Bool, true, any, leb, if◌then◌else◌, ◌==◌,
  string_Eq, ◌≡◌, refl, ap, sym, ◌∙◌, ◌↔◌, arith, Bool-cases, inl, inr, some_inj,
}
use command_center.Base.Dict.{Dict, IsDict, IsAbsent, get, put, pop, values, get-put, get-pop}
use command_center.Base.Entries.{put-IsDict, pop-IsDict}
use command_center.Presence.Tracker.{
  ClientPresence, Tracker, presence, report, forget, prune, list_clients, any_attentive,
}

-- The calls, each at the time that the clock then reads.
pub data Call : Type 0 where
  reports : String → String → Bool → ℕ → String → Call
  forgets : String → Call
  lists : Call
  asks : Call

unfoldable pub call : ℕ → Tracker → Call → Tracker
unfolding list_clients any_attentive
call now clients (reports client_id kind attentive ttl node) =
    (report now clients client_id kind attentive ttl node).1
call now clients (forgets client_id) = (forget clients client_id).1
call now clients lists = (list_clients now clients).1
call now clients asks = (any_attentive now clients).1

unfoldable pub run : Tracker → List (ℕ × Call) → Tracker
unfolding call
run clients [] = clients
run clients ((now, c) ∷ cs) = run (call now clients c) cs

-- The last heartbeat of each client that has not been forgotten, however old.
unfoldable pub heard : Dict String ClientPresence → List (ℕ × Call) → Dict String ClientPresence
heard d [] = d
heard d ((now, reports client_id kind attentive ttl node) ∷ cs) =
    heard (put d client_id (presence now client_id kind attentive ttl node)) cs
heard d ((now, forgets client_id) ∷ cs) = heard (pop d client_id) cs
heard d ((now, lists) ∷ cs) = heard d cs
heard d ((now, asks) ∷ cs) = heard d cs

-- The clock does not step back, from this time on up to the last.
abbrev pub InOrder : ℕ → List (ℕ × Call) → ℕ → Type 0
InOrder at [] last = at ≤ last
InOrder at ((now, c) ∷ cs) last = (at ≤ now) × InOrder now cs last

-- A heartbeat that counts at a time.
abbrev live : ℕ → Option ClientPresence → Option ClientPresence
live now none = none
live now (some c) = if leb c.expires_at now then none else some c

prune-IsAbsent : (now : ℕ) (d : Tracker) (k : String) → IsAbsent k d → IsAbsent k (prune now d)
unfolding prune
prune-IsAbsent now [] k a = tt
prune-IsAbsent now ((j, c) ∷ d) k a = elim (Bool-cases (leb c.expires_at now)) [
  | inl expired ↦ rw expired (prune-IsAbsent now d k a.1)
  | inr there ↦ rw there (a.0, prune-IsAbsent now d k a.1)
]

prune-IsDict : (now : ℕ) (d : Tracker) → IsDict d → IsDict (prune now d)
unfolding prune
prune-IsDict now [] u = tt
prune-IsDict now ((j, c) ∷ d) u = elim (Bool-cases (leb c.expires_at now)) [
  | inl expired ↦ rw expired (prune-IsDict now d u.1)
  | inr there ↦ rw there (prune-IsAbsent now d j u.0, prune-IsDict now d u.1)
]

get-absent : (d : Tracker) (k : String) → IsAbsent k d → get d k ≡ none
unfolding get
get-absent [] k a = refl
get-absent ((j, c) ∷ d) k a = rw a.0 (get-absent d k a.1)

get-prune :
    (now : ℕ) (d : Tracker) (k : String) → IsDict d → get (prune now d) k ≡ live now (get d k)
unfolding get prune
get-prune now [] k u = refl
get-prune now ((j, c) ∷ d) k u = elim (Bool-cases (j == k)) [
  | inl same ↦ elim (Bool-cases (leb c.expires_at now)) [
    | inl expired ↦
        rw (expired, same, expired)
          (ap (get (prune now d)) (sym ((string_Eq.equal_iff j k).0 same))
            ∙ get-absent (prune now d) j (prune-IsAbsent now d j u.0))
    | inr there ↦ rw (there, same, there) refl
  ]
  | inr other ↦ elim (Bool-cases (leb c.expires_at now)) [
    | inl expired ↦ rw (expired, other) (get-prune now d k u.1)
    | inr there ↦ rw (there, other) (get-prune now d k u.1)
  ]
]

live_later : (now t : ℕ) (o : Option ClientPresence) → now ≤ t → live t (live now o) ≡ live t o
live_later now t none le = refl
live_later now t (some c) le = ground (arith, le)

-- From a time on, the tracker and the heartbeats heard count the same.
record Agrees (at : ℕ) (clients d : Tracker) : Type 0 where
  pub unique : IsDict clients
  pub counts : (t : ℕ) (k : String) → at ≤ t → live t (get clients k) ≡ live t (get d k)

prune-Agrees :
    (at now : ℕ) (clients d : Tracker)
    → Agrees at clients d
    → at ≤ now
    → Agrees now (prune now clients) d
prune-Agrees at now clients d v le = record {
  unique = prune-IsDict now clients v.unique;
  counts = λ t k after.
      ap (live t) (get-prune now clients k v.unique)
      ∙ live_later now t (get clients k) after
      ∙ v.counts t k (omega (arith, le, after));
}

module _ (t : ℕ) (clients d : Tracker) (id k : String)
    (same_count : live t (get clients k) ≡ live t (get d k)) where
  put-counts :
      (p : ClientPresence) → live t (get (put clients id p) k) ≡ live t (get (put d id p) k)
  put-counts p =
      rw (get-put clients id k p, get-put d id k p)
        (elim (Bool-cases (id == k)) [ inl same ↦ rw same refl | inr other ↦ rw other same_count ])

  pop-counts : live t (get (pop clients id) k) ≡ live t (get (pop d id) k)
  pop-counts =
      rw (get-pop clients id k, get-pop d id k)
        (elim (Bool-cases (id == k)) [ inl same ↦ rw same refl | inr other ↦ rw other same_count ])

run-Agrees :
    (at last : ℕ) (clients d : Tracker) (cs : List (ℕ × Call))
    → Agrees at clients d
    → InOrder at cs last
    → Agrees last (run clients cs) (heard d cs)
unfolding run heard report forget
run-Agrees at last clients d [] v o = record {
  unique = v.unique;
  counts = λ t k le. v.counts t k (omega (arith, o, le));
}
run-Agrees at last clients d ((now, reports client_id kind attentive ttl node) ∷ cs) v o =
    let p = presence now client_id kind attentive ttl node in
    run-Agrees now last (put clients client_id p) (put d client_id p) cs
      (record {
        unique = put-IsDict clients client_id p v.unique;
        counts =
            λ t k le. put-counts t clients d client_id k (v.counts t k (omega (arith, o.0, le))) p;
      })
      o.1
run-Agrees at last clients d ((now, forgets client_id) ∷ cs) v o =
    run-Agrees now last (pop clients client_id) (pop d client_id) cs
      (record {
        unique = pop-IsDict clients client_id v.unique;
        counts =
            λ t k le. pop-counts t clients d client_id k (v.counts t k (omega (arith, o.0, le)));
      })
      o.1
run-Agrees at last clients d ((now, lists) ∷ cs) v o =
    run-Agrees now last (prune now clients) d cs (prune-Agrees at now clients d v o.0) o.1
run-Agrees at last clients d ((now, asks) ∷ cs) v o =
    run-Agrees now last (prune now clients) d cs (prune-Agrees at now clients d v o.0) o.1

-- A client whose last heartbeat is attentive and has not expired.
pub record IsAttentive (at : ℕ) (d : Tracker) : Type 0 where
  pub client_id : String
  pub last_heard : ClientPresence
  pub found : get d client_id ≡ some last_heard
  pub attends : last_heard.attentive ≡ true
  pub unexpired : at < last_heard.expires_at

-- A value found attentive is an entry, in a dictionary.
record Attends (d : Tracker) : Type 0 where
  pub client_id : String
  pub entry : ClientPresence
  pub found : get d client_id ≡ some entry
  pub attends : entry.attentive ≡ true

any-Attends : (d : Tracker) → IsDict d → any (λ c. c.attentive) (values d) ≡ true → Attends d
unfolding get
any-Attends [] u e = absurd (cc e)
any-Attends ((j, c) ∷ d) u e = elim (Bool-cases c.attentive) [
  | inl yes_it ↦ record {
    client_id = j;
    entry = c;
    found = rw ((string_Eq.equal_iff j j).1 refl) refl;
    attends = yes_it;
  }
  | inr not_it ↦
      let rest = any-Attends d u.1 (rw not_it at e) in
      record {
        client_id = rest.client_id;
        entry = rest.entry;
        found = elim (Bool-cases (j == rest.client_id)) [
          | inl same ↦ absurd (
              cc (
                get-absent d j u.0,
                ap (get d) ((string_Eq.equal_iff j rest.client_id).0 same),
                rest.found,
              ))
          | inr other ↦ rw other rest.found
        ];
        attends = rest.attends;
      }
]

Attends-any :
    (d : Tracker) (k : String) (c : ClientPresence)
    → get d k ≡ some c
    → c.attentive ≡ true
    → any (λ x. x.attentive) (values d) ≡ true
unfolding get
Attends-any [] k c found a = absurd (cc found)
Attends-any ((j, x) ∷ d) k c found a = elim (Bool-cases (j == k)) [
  | inl same ↦ rw (ap (λ (y : ClientPresence). y.attentive) (some_inj (rw same at found)) ∙ a) refl
  | inr other ↦ elim (Bool-cases x.attentive) [
    | inl yes_it ↦ rw yes_it refl
    | inr not_it ↦ rw not_it (Attends-any d k c (rw other at found) a)
  ]
]

live-some :
    (t : ℕ) (o : Option ClientPresence) (c : ClientPresence)
    → live t o ≡ some c
    → (o ≡ some c) × (t < c.expires_at)
live-some t none c e = absurd (cc e)
live-some t (some x) c e = elim (Bool-cases (leb x.expires_at t)) [
  | inl expired ↦ absurd (cc (rw expired at e))
  | inr there ↦
      let same = some_inj (rw there at e) in (ap some same, rw⁻¹ same (ground (arith, there)))
]

unexpired_live : (t : ℕ) (c : ClientPresence) → t < c.expires_at → live t (some c) ≡ some c
unexpired_live t c lt = ground (arith, lt)

-- With a clock that does not step back, `any_attentive` answers true exactly when some client that was
-- not forgotten has a last heartbeat that is attentive and has not expired, however often expired
-- clients were pruned in between.
pub any_attentive-IsAttentive :
    (cs : List (ℕ × Call)) (now : ℕ)
    → InOrder 0 cs now
    → ((any_attentive now (run [] cs)).0 ≡ true) ↔ IsAttentive now (heard [] cs)
unfolding any_attentive
any_attentive-IsAttentive cs now o =
    let v = run-Agrees 0 now [] [] cs (record { unique = tt; counts = λ t k le. refl }) o in
    let same : (k : String) → get (prune now (run [] cs)) k ≡ live now (get (heard [] cs) k) =
      (λ k. get-prune now (run [] cs) k v.unique ∙ v.counts now k (omega arith)) in
    (
      (λ e.
          let a = any-Attends (prune now (run [] cs)) (prune-IsDict now (run [] cs) v.unique) e in
          let l =
            live-some now (get (heard [] cs) a.client_id) a.entry
              (sym (same a.client_id) ∙ a.found) in
          record {
            client_id = a.client_id;
            last_heard = a.entry;
            found = l.0;
            attends = a.attends;
            unexpired = l.1;
          }),
      (λ a.
          Attends-any (prune now (run [] cs)) a.client_id a.last_heard
            (same a.client_id ∙ ap (live now) a.found ∙ unexpired_live now a.last_heard a.unexpired)
            a.attends),
    )
