-- ===== src/History/Tests.antt =====
-- A run of the history of src/workspace-history, with a client that keeps lists and an emitter that
-- calls its listener.
use cost_x.Base.{◌≡◌, refl, none}
use cost_x.Prisma.Client.{in_memory}
use cost_x.Schema.{Item, empty}
use cost_x.Transaction.{err, foreign_key_violation}
use cost_x.History.Events.{Event}
use cost_x.History.Emitter.{direct_emitter, emit}

abbrev bread : Item
bread = record { id = 4; title = "bread"; workspace_id = 1; stake_rule = none }

-- Nobody is there who could have acted.
barred_run : emit (Event.item_created 1 2 bread) empty ≡ err foreign_key_violation
unfolding emit
barred_run = refl
