-- ===== src/Logs/Gateway/Pipes.antt =====
-- The follow pipes of a gateway: who is written to, and what a finished write changes.
use mathlib.Core.Option
use conrt.Base.{
  ℕ, zero, suc, ◌+◌, ◌≤◌, Bool, true, false, List, [], ◌∷◌, map, Option, none, some, ◌≡◌, refl, ap,
  arith, set, get_elem?, ◌==◌, if◌then◌else◌, RawFd, inl, inr, Option-cases,
}
use conrt.Logs.Cache
use conrt.Logs.Gateway.{
  AsyncPipeWriter, LogGateway, mark_idle, push, position, find, swap_remove, drop_last, last_or,
  complete_write, complete_at,
}

-- How many pipes have the id.
abbrev pub with_id : ℕ → List AsyncPipeWriter → ℕ
with_id j [] = 0
with_id j (p ∷ ps) = (if p.id == j then 1 else 0) + with_id j ps

abbrev pub Distinct : List AsyncPipeWriter → Type 0
Distinct ps = (j : ℕ) → with_id j ps ≤ 1

-- The ids of the pipes that have no write outstanding.
abbrev pub idle_ids : List AsyncPipeWriter → List ℕ
idle_ids [] = []
idle_ids (p ∷ ps) = if p.in_flight then idle_ids ps else p.id ∷ idle_ids ps

abbrev pub busy : AsyncPipeWriter → AsyncPipeWriter
busy p = record p { in_flight = true }

mark_idle_lem : (ps : List AsyncPipeWriter) → mark_idle ps ≡ (idle_ids ps, map busy ps)
unfolding mark_idle
mark_idle_lem [] = refl
mark_idle_lem (p ∷ ps) = ground (arith, mark_idle_lem ps)

-- Where a push returns, its line is for exactly the pipes with no write outstanding, in their
-- order, and from then on every pipe has one outstanding; nothing else of a pipe changes, and the
-- cache is the one that its own push gives.
pub push-idle_ids :
    (fuel : ℕ) (line ids : List ℕ) (g g' : LogGateway)
    → push fuel line g ≡ some (ids, g')
    → (ids ≡ idle_ids g.pipes)
      × (g'.pipes ≡ map busy g.pipes)
      × (Cache.push fuel line g.cache ≡ some g'.cache)
unfolding push
push-idle_ids fuel line ids g g' h = ground (arith, mark_idle_lem g.pipes)

find-rotate :
    (j : ℕ) (p : AsyncPipeWriter) (ps : List AsyncPipeWriter)
    → with_id j (p ∷ ps) ≤ 1
    → (find j (last_or p ps ∷ drop_last (p ∷ ps)) ≡ find j (p ∷ ps))
      × (with_id j (last_or p ps ∷ drop_last (p ∷ ps)) ≡ with_id j (p ∷ ps))
unfolding find
find-rotate j p [] h = (refl, refl)
find-rotate j p (q ∷ ps) h = ground (arith, find-rotate j q ps)

find-none : (j : ℕ) (ps : List AsyncPipeWriter) → with_id j ps ≡ 0 → find j ps ≡ none
unfolding find
find-none j [] h = refl
find-none j (p ∷ ps) h = ground (arith, find-none j ps)

-- The state of the pipe with id `j` once the pipe `id` has changed to `q`, or gone.
abbrev pub replaced : ℕ → ℕ → Option AsyncPipeWriter → List AsyncPipeWriter → Option AsyncPipeWriter
replaced j id q ps = if id == j then q else find j ps

removed :
    (j id idx : ℕ) (ps : List AsyncPipeWriter)
    → position id ps ≡ some idx
    → with_id j ps ≤ 1
    → (find j (swap_remove ps idx) ≡ replaced j id none ps)
      × (with_id j (swap_remove ps idx) ≤ with_id j ps)
unfolding find position
removed j id idx [] e h = absurd (ground arith)
removed j id zero (p ∷ []) e h = ground arith
removed j id (suc i) (p ∷ []) e h = absurd (ground arith)
removed j id zero (p ∷ q ∷ ps) e h = ground (arith, find-rotate j q ps, find-none j (q ∷ ps))
removed j id (suc i) (p ∷ q ∷ ps) e h = ground (arith, removed j id i (q ∷ ps))

cleared :
    (j id idx : ℕ) (ps : List AsyncPipeWriter) (p p' : AsyncPipeWriter)
    → position id ps ≡ some idx
    → get_elem? ps idx ≡ some p
    → p'.id ≡ p.id
    → (find id ps ≡ some p)
      × (find j (set ps idx p') ≡ replaced j id (some p') ps)
      × (with_id j (set ps idx p') ≡ with_id j ps)
unfolding find position
cleared j id idx [] p p' e g h = absurd (ground arith)
cleared j id zero (q ∷ ps) p p' e g h = ground arith
cleared j id (suc i) (q ∷ ps) p p' e g h = ground (arith, cleared j id i ps p p')

position-none : (id : ℕ) (ps : List AsyncPipeWriter) → position id ps ≡ none → find id ps ≡ none
unfolding find position
position-none id [] e = refl
position-none id (p ∷ ps) e = ground (arith, position-none id ps)

position-some :
    (id idx : ℕ) (ps : List AsyncPipeWriter)
    → position id ps ≡ some idx
    → (p : AsyncPipeWriter) × (get_elem? ps idx ≡ some p)
unfolding position
position-some id idx [] e = absurd (ground arith)
position-some id zero (p ∷ ps) e = (p, refl)
position-some id (suc i) (p ∷ ps) e = position-some id i ps (ground arith)

-- What a finished write leaves of its pipe: idle again, or gone if the write failed.
abbrev pub idle : AsyncPipeWriter → AsyncPipeWriter
idle p = record p { in_flight = false }

abbrev pub after_write : Bool → Option AsyncPipeWriter → Option AsyncPipeWriter
after_write false p = none
after_write true p = Option.map idle p

abbrev pub closed_by : Bool → Option AsyncPipeWriter → List RawFd
closed_by false (some p) = p.fd ∷ []
closed_by _ _ = []

complete_write-none :
    (id : ℕ) (ok : Bool) (g : LogGateway)
    → position id g.pipes ≡ none
    → complete_write id ok g ≡ (g, [])
unfolding complete_write
complete_write-none id ok g e = rw (e, complete_write)

complete_write-some :
    (id idx : ℕ) (ok : Bool) (g : LogGateway) (p : AsyncPipeWriter)
    → position id g.pipes ≡ some idx
    → get_elem? g.pipes idx ≡ some p
    → complete_write id ok g ≡ complete_at idx p ok g
unfolding complete_write
complete_write-some id idx ok g p e f = rw (e, complete_write, f)

-- What a finished write to pipe `id` makes of the gateway, seen at the id `j`.
abbrev pub Completed : ℕ → ℕ → Bool → LogGateway → LogGateway × List RawFd → Type 0
Completed id j ok g r =
    (find j r.0.pipes ≡ (if id == j then after_write ok (find j g.pipes) else find j g.pipes))
    × (r.1 ≡ closed_by ok (find id g.pipes))
    × (with_id j r.0.pipes ≤ 1)

Completed-none :
    (id j : ℕ) (ok : Bool) (g : LogGateway)
    → Distinct g.pipes
    → position id g.pipes ≡ none
    → Completed id j ok g (g, [])
Completed-none id j true g d e =
    ground (arith, position-none id g.pipes e, d j, ap (λ k. find k g.pipes) {x = id} {y = j})
Completed-none id j false g d e =
    ground (arith, position-none id g.pipes e, d j, ap (λ k. find k g.pipes) {x = id} {y = j})

Completed-some :
    (id j idx : ℕ) (ok : Bool) (g : LogGateway) (p : AsyncPipeWriter)
    → Distinct g.pipes
    → position id g.pipes ≡ some idx
    → get_elem? g.pipes idx ≡ some p
    → Completed id j ok g (complete_at idx p ok g)
unfolding complete_at
Completed-some id j idx true g p d e f = ground (
  arith,
  cleared j id idx g.pipes p (idle p) e f refl,
  d j,
  ap (λ k. find k g.pipes) {x = id} {y = j},
)
Completed-some id j idx false g p d e f =
    ground (arith, removed j id idx g.pipes e (d j), cleared j id idx g.pipes p p e f refl, d j)

-- In a gateway whose pipes have distinct ids, a finished write to pipe `id` makes that pipe idle if
-- it succeeded, and removes it and closes its descriptor if it failed; every other pipe stays as it
-- is, an unknown id changes nothing, and the ids stay distinct.
pub complete_write-find :
    (id j : ℕ) (ok : Bool) (g : LogGateway)
    → Distinct g.pipes
    → Completed id j ok g (complete_write id ok g)
complete_write-find id j ok g d = elim (Option-cases (position id g.pipes)) [
  | inl e ↦ rw (complete_write-none id ok g e) (Completed-none id j ok g d e)
  | inr (idx, e) ↦
      let (p, f) = position-some id idx g.pipes e in
      rw (complete_write-some id idx ok g p e f) (Completed-some id j idx ok g p d e f)
]
