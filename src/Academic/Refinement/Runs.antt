-- ===== src/Academic/Refinement/Runs.antt =====
-- Runs of the academic services, by any actors, from the empty store on.
use kingsway_academy.Base.{String}
use kingsway_academy.Domain.{Principal}
use kingsway_academy.Store.State.{Memory, new_memory}
use kingsway_academy.Store.Reach.{Reach}
use kingsway_academy.Store.Indexes.{Indexes}
use kingsway_academy.Auth.Libraries.{Jwt, Bcrypt}
use kingsway_academy.Academic.Calls.{ServiceCall}

-- One call after the other, each by its own actor.
pub data ServiceRun (jwt : Jwt) (bcrypt : Bcrypt) (secret : String) : Memory → Type 0 where
  start : ServiceRun jwt bcrypt secret new_memory
  call :
      {m m' : Memory} (actor : Principal)
      → ServiceRun jwt bcrypt secret m
      → ServiceCall jwt bcrypt secret actor m m'
      → ServiceRun jwt bcrypt secret m'
