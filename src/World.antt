-- ===== src/World.antt =====
-- The state that the handlers share: the database and the socket manager. A handler is a function
-- from a world to its answer and the next world.
use batch_shutdown_assistant.Models.{Db}
use batch_shutdown_assistant.Manager.{Manager}

pub record World : Type 0 where
  pub db : Db
  pub manager : Manager
