-- ===== src/Scheduler/Service/Accepts.antt =====
-- A schedule that src/prodeo/scheduler/service.py accepts keeps an expression that parses: firing and
-- rebuilding parse it again.
use Prim.Native.Char.{code}
use command_center.Base.{
  ℕ, String, Option, List, [], ◌∷◌, false, ◌&&◌, Result, ok, raise, bind_ok, ok_inj, ◌≡◌, refl, ap,
  sym, ◌∙◌, Bool-cases, Option-cases, inl, inr, string_Eq, nat_Eq,
}
use command_center.Base.Text.{strip, lstrip, rstrip, is_nil, is_space, words, lower, codes, Text}
use command_center.Base.Dict.{IsDict, get}
use command_center.Base.Entries.{AllEntries, put-AllEntries, pop-AllEntries, put-IsDict, pop-IsDict}
use command_center.Events.Host.{Host, now, fresh}
use command_center.Scheduler.Model.{Schedule, LaunchSpec}
use command_center.Scheduler.Cron.{
  CronSpec, parse_cron, parse_field, parse_fields, alias, aliases, month_names, dow_names,
}
use command_center.Scheduler.Service.{Scheduler, Zone, create, define, delete, next_run, stamped}

-- No space at the start.
abbrev IsTrimmed : String → Type 0
IsTrimmed String.[] = Unit
IsTrimmed (String.◌∷◌ c s) = is_space (code c) ≡ false

lstrip-IsTrimmed : (s : String) → IsTrimmed (lstrip s)
unfolding lstrip
lstrip-IsTrimmed String.[] = tt
lstrip-IsTrimmed (String.◌∷◌ c s) = elim (Bool-cases (is_space (code c))) [
  | inl space ↦ rw space (lstrip-IsTrimmed s)
  | inr other ↦ rw other other
]

lstrip_trimmed : (s : String) → IsTrimmed s → lstrip s ≡ s
unfolding lstrip
lstrip_trimmed String.[] t = refl
lstrip_trimmed (String.◌∷◌ c s) t = rw t refl

rstrip-IsTrimmed : (s : String) → IsTrimmed s → IsTrimmed (rstrip s)
unfolding rstrip
rstrip-IsTrimmed String.[] t = tt
rstrip-IsTrimmed (String.◌∷◌ c s) t = elim (Bool-cases (is_nil (rstrip s))) [
  | inl nil ↦ rw (nil, t) t
  | inr more ↦ rw more t
]

rstrip_twice : (s : String) → rstrip (rstrip s) ≡ rstrip s
unfolding rstrip
rstrip_twice String.[] = refl
rstrip_twice (String.◌∷◌ c s) = elim (Bool-cases (is_nil (rstrip s) && is_space (code c))) [
  | inl gone ↦ rw gone refl
  | inr kept ↦ rw (kept, rstrip_twice s, kept) refl
]

strip_twice : (s : String) → strip (strip s) ≡ strip s
unfolding strip
strip_twice s =
    ap rstrip
      (lstrip_trimmed (rstrip (lstrip s)) (rstrip-IsTrimmed (lstrip s) (lstrip-IsTrimmed s)))
    ∙ rstrip_twice (lstrip s)

parse_fields_expression :
    (expression : String) (fields : List Text) (spec : CronSpec)
    → parse_fields expression fields ≡ ok spec
    → spec.expression ≡ expression
unfolding parse_fields
parse_fields_expression expression (f0 ∷ f1 ∷ f2 ∷ f3 ∷ f4 ∷ []) spec e =
    let (minutes, h0, e0) = bind_ok (parse_field f0 0 59 []) _ spec e in
    let (hours, h1, e1) = bind_ok (parse_field f1 0 23 []) _ spec e0 in
    let (dom, h2, e2) = bind_ok (parse_field f2 1 31 []) _ spec e1 in
    let (months, h3, e3) = bind_ok (parse_field f3 1 12 month_names) _ spec e2 in
    let (dow, h4, e4) = bind_ok (parse_field f4 0 7 dow_names) _ spec e3 in
    sym (ap (λ (x : CronSpec). x.expression) (ok_inj e4))
parse_fields_expression expression [] spec e = absurd (cc e)
parse_fields_expression expression (a ∷ []) spec e = absurd (cc e)
parse_fields_expression expression (a ∷ b ∷ []) spec e = absurd (cc e)
parse_fields_expression expression (a ∷ b ∷ c ∷ []) spec e = absurd (cc e)
parse_fields_expression expression (a ∷ b ∷ c ∷ d ∷ []) spec e = absurd (cc e)
parse_fields_expression expression (a ∷ b ∷ c ∷ d ∷ f ∷ g ∷ more) spec e = absurd (cc e)

-- The expression that a schedule keeps, stripped, parses again, to the same.
pub parse_cron_again :
    (expression : String) (spec : CronSpec)
    → parse_cron expression ≡ ok spec
    → parse_cron spec.expression ≡ ok spec
unfolding parse_cron
parse_cron_again expression spec e =
    ap parse_cron (parse_fields_expression _ _ spec e)
    ∙ ap (λ t. parse_fields t (words (alias aliases (lower (codes t))))) (strip_twice expression)
    ∙ e

-- A schedule under its own id whose expression parses.
pub record IsEntry (id : ℕ) (x : Schedule) : Type 0 where
  pub keyed : x.id ≡ id
  pub spec : CronSpec
  pub parses : parse_cron x.cron ≡ ok spec

pub record IsSound (s : Scheduler) : Type 0 where
  pub unique : IsDict s.schedules
  pub entries : AllEntries IsEntry s.schedules

pub stamped-IsEntry :
    (at : ℕ) (next : Option ℕ) (j : ℕ) (x : Schedule) → IsEntry j x → IsEntry j (stamped x at next)
stamped-IsEntry at next j x v = record { keyed = v.keyed; spec = v.spec; parses = v.parses }

pub create-IsSound :
    (zone : Zone) (h : Host) (s : Scheduler) (name cron adapter : String) (spec : LaunchSpec)
    → IsSound s
    → IsSound (create zone h s name cron adapter spec).scheduler
unfolding create define
create-IsSound zone h s name cron adapter spec v = go (parse_cron cron) refl
  where
    go :
        (o : Result CronSpec)
        → parse_cron cron ≡ o
        → IsSound (create zone h s name cron adapter spec).scheduler
    go (raise x) e = rw (e, create) v
    go (ok parsed) e = elim (Option-cases (next_run zone parsed (now h))) [
      | inl never ↦ rw (e, create, never) v
      | inr (first, found) ↦
          rw (e, create, found)
            (record {
              unique = put-IsDict s.schedules (fresh h) _ v.unique;
              entries =
                  put-AllEntries IsEntry s.schedules (fresh h) _ v.entries (record {
                    keyed = refl;
                    spec = parsed;
                    parses = parse_cron_again cron parsed e;
                  });
            })
    ]

pub delete-IsSound :
    (h : Host) (s : Scheduler) (id : ℕ) → IsSound s → IsSound (delete h s id).scheduler
unfolding delete
delete-IsSound h s id v = elim (Option-cases (get s.schedules id)) [
  | inl absent ↦ rw (absent, delete) v
  | inr (x, found) ↦
      rw (found, delete)
        (record {
          unique = pop-IsDict s.schedules id v.unique;
          entries = pop-AllEntries IsEntry s.schedules id v.entries;
        })
]
