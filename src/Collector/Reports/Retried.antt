-- ===== src/Collector/Reports/Retried.antt =====
-- A report that is sent again after it was accepted.
use Prim.Native.String.{◌++◌ as join}
use lite_checker.Prelude.{
  ℕ, ◌≡◌, ◌∙◌, Bool, true, false, some, List, refl, if◌then◌else◌, ap, subst, ◌&&◌, String,
  string_eq, nat_eq, ◌==◌, beq_refl, decimal,
}
use lite_checker.Collector.Rows.{
  Agent, Event, Db, Answer, done, failed, bad_argument, Limits, first_where, update_where,
  transaction,
}
use lite_checker.Collector.Rows.Tables.{first_where-update_where, first_where-All, All-of}
use lite_checker.Collector.Names.{safe_name}
use lite_checker.Collector.Reports.{
  AgentReport, Messages, AcceptResult, rate_window, seen, is_agent, event_of, is_event,
  same_payload, accept_event, accept_from, accept_report,
}
use lite_checker.Collector.Reports.Accepted.{accept_report-Accepted}
use lite_checker.Collector.Reports.Verdicts.{Accepted, AcceptedAnswer}

-- the arguments pass the checks that come before the transaction
abbrev well_named : AgentReport → String → Bool
well_named r agent =
    r.agent_id == agent
    && safe_name r.boot_id
    && r.event_id == join agent (join ":" (join r.boot_id (join ":" (decimal r.sequence))))

accepted-well_named :
    (l : Limits) (m : Messages) (r : AgentReport) (now : ℕ) (agent : String) (db db' : Db)
    (x : AcceptResult)
    → accept_report l m r now agent db ≡ (done x, db')
    → well_named r agent ≡ true
unfolding accept_report
accepted-well_named l m r now agent db db' x e = passed (well_named r agent) _ e
  where
    passed :
        (b : Bool) (y : Answer AcceptResult × Db)
        → (if b then y else (failed bad_argument, db)) ≡ (done x, db')
        → b ≡ true
    passed true y e = refl
    passed false y e = absurd (cc (ap (λ (z : Answer AcceptResult × Db). z.0) e))

event_of-same_payload :
    (l : Limits) (m m' : Messages) (r : AgentReport) (now now' : ℕ) (l' : Limits)
    → same_payload l' m' r now' (event_of l m r now) ≡ true
unfolding same_payload
event_of-same_payload l m m' r now now' l' =
    rw (beq_refl r.agent_id, beq_refl r.boot_id, beq_refl r.sequence, beq_refl r.payload_digest)
      refl

marked-found :
    (id : String) (now sequence started count : ℕ) (rows : List Agent) (a : Agent)
    → first_where (is_agent id) rows ≡ some a
    → first_where (is_agent id) (update_where (is_agent id) (seen now sequence started count) rows)
      ≡ some (seen now sequence started count a)
unfolding seen
marked-found id now sequence started count rows a e =
    let f = seen now sequence started count in
    let is_a = (first_where-All (λ _. Unit {0}) (is_agent id) rows a (All-of (λ _. tt) rows) e).1 in
    first_where-update_where (is_agent id) (is_agent id) f rows (λ x. refl) e
    ∙ ap (λ b. some (if b then f a else a)) is_a

seen-active :
    (now sequence started count : ℕ) (a : Agent)
    → (seen now sequence started count a).active ≡ a.active
unfolding seen
seen-active now sequence started count a = refl

accept_from-repeated :
    (l : Limits) (m : Messages) (r : AgentReport) (now : ℕ) (d : Db) (a : Agent) (e : Event)
    → a.active ≡ true
    → first_where (is_event l m r now) d.events ≡ some e
    → same_payload l m r now e ≡ true
    → accept_from l m r now (some a) d ≡ done (record { is_new = false; recovered = false }, d)
unfolding accept_from accept_event
accept_from-repeated l m r now d a e h f s = simp h (rw f (rw s refl))

-- the database has the event of the report, and its agent is active
abbrev pub Knows : AgentReport → Event → Db → Type 0
Knows r e d =
    (a : Agent) × (first_where (is_agent r.agent_id) d.agents ≡ some a)
    × (a.active ≡ true)
    × (first_where (λ (f : Event). f.event_id == r.event_id) d.events ≡ some e)

-- Once a report has been accepted, its agent is active and its event stands in the database. In
-- each database `d` where that is so, now or later, the same report sent again is answered as
-- accepted before and changes nothing, at whatever time it comes and with whatever limits and texts.
pub accept_report-retried :
    (l l' : Limits) (m m' : Messages) (r : AgentReport) (now now' : ℕ) (agent : String)
    (db db' d : Db) (recovered : Bool)
    → accept_report l m r now agent db
      ≡ (done (record { is_new = true; recovered = recovered }), db')
    → Knows r (event_of l m r now) d
    → Knows r (event_of l m r now) db'
      × (accept_report l' m' r now' agent d
          ≡ (done (record { is_new = false; recovered = false }), d))
unfolding accept_report transaction
accept_report-retried l l' m m' r now now' agent db db' d recovered e (a, found, active, stands) =
    let k : Accepted l m r now db recovered db' =
      subst (AcceptedAnswer l m r now db agent) e (accept_report-Accepted l m r now db agent) in
    let (started, count) = rate_window l now k.row in
    let marked =
      ap (first_where (is_agent r.agent_id)) k.marks
      ∙ marked-found r.agent_id now r.sequence started count db.agents k.row k.found in
    let again =
      accept_from-repeated l' m' r now' d a (event_of l m r now) active stands
        (event_of-same_payload l m m' r now now' l') in
    (
      (_, marked, seen-active now r.sequence started count k.row ∙ k.active, k.stands),
      rw (accepted-well_named l m r now agent db db' _ e, found, again) refl,
    )
