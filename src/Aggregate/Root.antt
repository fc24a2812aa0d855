-- ===== src/Aggregate/Root.antt =====
-- The base class of the aggregates (packages/domain/src/aggregate/aggregate-root.ts), the envelope
-- of their events (packages/domain/src/events/domain-event.ts) and the result of a command
-- (packages/shared/src/result/result.ts). Identifiers are only compared, so they are numbers; a
-- date is its time value in milliseconds.
use vega_revenue_os.Prelude.{ℕ, ◌+◌, Option, none, some, List, [], ◌∷◌, ◌++◌}

-- What each command takes besides its own arguments, and what `new Date()` reads in it.
pub record Stamp : Type 0 where
  pub event_id : ℕ
  pub correlation_id : ℕ
  pub now : ℕ

-- `DomainEvent`: the event type, its version and its producer are fixed by the payload's class.
pub record DomainEvent (P : Type 0) : Type 0 where
  pub event_id : ℕ
  pub occurred_at : ℕ
  pub tenant_id : ℕ
  pub correlation_id : ℕ
  pub payload : P

pub record AggregateRoot (P : Type 0) : Type 0 where
  pub tenant_id : ℕ
  pub id : ℕ
  pub version : ℕ
  pub loaded_version : Option ℕ
  pub domain_events : List (DomainEvent P)

-- The outcome of a command with no value: `Result<void, E>`, or an exception that it throws.
pub data Outcome (E : Type 0) : Type 0 where
  ok : Outcome E
  fail : E → Outcome E

module _ {P : Type 0} where
  -- The constructor of `AggregateRoot`.
  abbrev pub new_root : ℕ → ℕ → AggregateRoot P
  new_root tenant id = record {
    tenant_id = tenant;
    id = id;
    version = 0;
    loaded_version = none;
    domain_events = [];
  }

  -- An event is stamped with the aggregate's tenant and the command's ids and time.
  abbrev pub event_of : AggregateRoot P → Stamp → P → DomainEvent P
  event_of r s p = record {
    event_id = s.event_id;
    occurred_at = s.now;
    tenant_id = r.tenant_id;
    correlation_id = s.correlation_id;
    payload = p;
  }

  abbrev pub apply_event : DomainEvent P → AggregateRoot P → AggregateRoot P
  apply_event e r = record r {
    domain_events = r.domain_events ++ (e ∷ []);
    version = r.version + 1;
  }

  -- `this.applyEvent(new Event(eventId, this.tenantId, correlationId, payload))`.
  abbrev pub emit : Stamp → P → AggregateRoot P → AggregateRoot P
  emit s p r = apply_event (event_of r s p) r

  abbrev pub clear_domain_events : AggregateRoot P → AggregateRoot P
  clear_domain_events r = record r { domain_events = [] }

  abbrev pub set_version : ℕ → AggregateRoot P → AggregateRoot P
  set_version v r = record r { version = v; loaded_version = some v }
