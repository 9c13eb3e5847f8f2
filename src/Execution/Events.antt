-- ===== src/Execution/Events.antt =====
-- src/qveris_bench/execution/events.py: the event log. The file is the list of the lines that
-- `read_text().splitlines()` gives, empty where there is no file: all of it is written by `append`,
-- so it ends with a line's end. Failures of the file system are not modelled.
use qveris_capability_benchm.Prelude.{
  ℕ, String, ◌≡◌, ◌⊎◌, inl, inr, refl, ◌∙◌, ap, sym, ◌+◌, suc, List, [], ◌∷◌, ◌++◌, arith, length,
  Result, ok, err, ◌>>=◌, ok-injective, >>=-eq-ok,
}
use qveris_capability_benchm.Models.Value.{Value}
use qveris_capability_benchm.Models.Run.{ObservationEvent}
use qveris_capability_benchm.Execution.Retry.{Failure}

-- What the log calls outside this file: `json.loads(redact_text(json.dumps(details)).text)`, which
-- raises where the redacted text is no JSON, `datetime.now(UTC)`, pydantic's printer and parser of
-- events, and `str.splitlines` of a line that is written.
pub record LogServices (W : Type 0) : Type 0 where
  pub sanitize : Value → Result Failure Value
  pub now : W → String × W
  pub model_dump_json : ObservationEvent → String
  pub model_validate_json : String → Result Failure ObservationEvent
  pub splitlines : String → List String

abbrev pub Log : Type 0
Log = List String

module _ {W : Type 0} (services : LogServices W) where
  -- `EventLog.read`
  unfoldable pub read_events : Log → Result Failure (List ObservationEvent)
  read_events [] = ok []
  read_events (line ∷ lines) = do
    event ← services.model_validate_json line
    events ← read_events lines
    ok (event ∷ events)

  -- The event that is written, at a time
  abbrev pub event_at : List ObservationEvent → String → Value → String → ObservationEvent
  event_at existing event_type safe_details occurred_at = record {
    sequence = length existing;
    occurred_at = occurred_at;
    event_type = event_type;
    details = safe_details;
  }

  -- Behind the reading of the log: nothing is written where the reading or the sanitizing raised.
  append_safe :
      Result Failure (List ObservationEvent × Value)
      → String
      → Log
      → W
      → Result Failure ObservationEvent × Log × W
  append_safe (err f) event_type log w = (err f, log, w)
  append_safe (ok (existing, safe_details)) event_type log w =
      let (occurred_at, w') = services.now w in
      let event = event_at existing event_type safe_details occurred_at in
      (ok event, log ++ services.splitlines (services.model_dump_json event), w')

  -- `EventLog.append`
  unfoldable pub append : String → Value → Log → W → Result Failure ObservationEvent × Log × W
  unfolding read_events append_safe
  append event_type details log =
      append_safe
        (do
          existing ← read_events log
          safe_details ← services.sanitize details
          ok (existing, safe_details))
        event_type log

-- The events are numbered from `n` on.
abbrev pub NumberedFrom : ℕ → List ObservationEvent → Type 0
NumberedFrom n [] = Unit
NumberedFrom n (e ∷ events) = (e.sequence ≡ n) × NumberedFrom (suc n) events

NumberedFrom-append :
    (n : ℕ) (events : List ObservationEvent) (e : ObservationEvent)
    → NumberedFrom n events
    → e.sequence ≡ n + length events
    → NumberedFrom n (events ++ e ∷ [])
NumberedFrom-append n [] e h k = (omega arith, tt)
NumberedFrom-append n (x ∷ events) e h k =
    (h.0, NumberedFrom-append (suc n) events e h.1 (omega arith))

module _ {W : Type 0} (services : LogServices W) where
  -- The text of an event is one line, from which the event is parsed again.
  pub record IsLine (event : ObservationEvent) : Type 0 where
    pub one_line :
        services.splitlines (services.model_dump_json event) ≡ services.model_dump_json event ∷ []
    pub parsed : services.model_validate_json (services.model_dump_json event) ≡ ok event

  -- What appending does to a log that holds some events: where it raises, nothing; else it adds one
  -- event behind them, which is read back, and the events are numbered on.
  abbrev pub Appends :
      List ObservationEvent → Log → Result Failure ObservationEvent × Log × W → Type 0
  Appends existing log o =
      ((f : Failure) × (o.0 ≡ err f) × (o.1 ≡ log))
      ⊎ ((event : ObservationEvent) × (o.0 ≡ ok event)
          × (read_events services o.1 ≡ ok (existing ++ event ∷ []))
          × NumberedFrom 0 (existing ++ event ∷ []))

  read_events-append :
      (log : Log) (existing : List ObservationEvent) (line : String) (event : ObservationEvent)
      → read_events services log ≡ ok existing
      → services.model_validate_json line ≡ ok event
      → read_events services (log ++ line ∷ []) ≡ ok (existing ++ event ∷ [])
  unfolding read_events
  read_events-append [] existing line event h p =
      rw p (ap (λ es. ok (es ++ event ∷ [])) (sym (ok-injective h)))
  read_events-append (l ∷ log) existing line event h p =
      let (first, f, h1) = >>=-eq-ok (services.model_validate_json l) _ h in
      let (rest, r, h2) = >>=-eq-ok (read_events services log) _ h1 in
      rw (f, read_events-append log rest line event r p)
        (ap (λ es. ok (es ++ event ∷ [])) (sym (ok-injective h2)))

  append_safe-Appends :
      (r : Result Failure (List ObservationEvent × Value)) (event_type : String) (log : Log) (w : W)
      (existing : List ObservationEvent)
      → ((p : List ObservationEvent × Value) → r ≡ ok p → p.0 ≡ existing)
      → read_events services log ≡ ok existing
      → NumberedFrom 0 existing
      → ((event : ObservationEvent)
          → (append_safe services r event_type log w).0 ≡ ok event
          → IsLine event)
      → Appends existing log (append_safe services r event_type log w)
  unfolding append_safe
  append_safe-Appends (err f) event_type log w existing s h n lines = inl (f, refl, refl)
  append_safe-Appends (ok (events, safe)) event_type log w existing s h n lines =
      let event = event_at services events event_type safe (services.now w).0 in
      let k = lines event refl in
      let numbered : event.sequence ≡ length existing = ap length (s _ refl) in
      inr (
        event,
        refl,
        rw k.one_line (read_events-append log existing _ event h k.parsed),
        NumberedFrom-append 0 existing event n (omega (arith, numbered)),
      )

  -- Where the events of a log are numbered 0, 1, 2, … in order and the text of an event that is
  -- written is one line that parses to it, appending either raises and leaves the log as it was, or
  -- adds one event with the next number: the log is read back as its events with that one behind
  -- them, numbered in order.
  pub append-NumberedFrom :
      (event_type : String) (details : Value) (log : Log) (w : W) (existing : List ObservationEvent)
      → read_events services log ≡ ok existing
      → NumberedFrom 0 existing
      → ((event : ObservationEvent)
          → (append services event_type details log w).0 ≡ ok event
          → IsLine event)
      → Appends existing log (append services event_type details log w)
  unfolding append
  append-NumberedFrom event_type details log w existing h n lines =
      append_safe-Appends _ event_type log w existing
        (λ p e.
          let (read, r, e1) = >>=-eq-ok (read_events services log) _ e in
          let (safe, t, e2) = >>=-eq-ok (services.sanitize details) _ e1 in
          ap (λ (q : List ObservationEvent × Value). q.0) (ok-injective e2)
          ∙ ok-injective (sym h ∙ r))
        h n lines
