-- ===== src/History/Emitter.antt =====
-- The event emitter of `@nestjs/event-emitter`, which the services share. `emitAsync` runs the
-- listener of the event and waits for it; a listener that ends without an exception has done all
-- it does. When the database refuses its row, the emitter logs the exception, but PostgreSQL has
-- aborted the transaction: no later statement of it is carried out and nothing of it is kept. So the
-- call does not come through.
use cost_x.Base.{◌≡◌}
use cost_x.Prisma.{Prisma}
use cost_x.Schema.{Db, WorkspaceHistory}
use cost_x.Transaction.{M, Error, ok, err}
use cost_x.History.Events.{Event}
use cost_x.History.Listener.{on_event}

pub record EventEmitter : Type 0 where
  pub emit_async : (Event → M WorkspaceHistory) → Event → M WorkspaceHistory
  pub delivers :
      (listener : Event → M WorkspaceHistory) (event : Event) (db db' : Db) (h : WorkspaceHistory)
      → listener event db ≡ ok (h, db')
      → emit_async listener event db ≡ ok (h, db')
  pub aborts :
      (listener : Event → M WorkspaceHistory) (event : Event) (db : Db) (e : Error)
      → listener event db ≡ err e
      → emit_async listener event db ≡ err e

-- An emitter that calls its listener.
instance abbrev pub direct_emitter : EventEmitter
direct_emitter = record {
  emit_async = λ listener event. listener event;
  delivers = λ listener event db db' h e. e;
  aborts = λ listener event db e h. h;
}

module _ ⦃prisma : Prisma⦄ ⦃emitter : EventEmitter⦄ where
  -- `this.eventEmitter.emitAsync(…)` with the listeners of the module registered.
  unfoldable pub emit : Event → M WorkspaceHistory
  unfolding on_event
  emit event = emitter.emit_async on_event event
