-- ===== src/Core/IdGenerator/Calls.antt =====
-- The shared generator under the calls of every service, one after another.
pub mod Bounds
pub mod Freshness
use sakumock.Core.IdGenerator
use sakumock.Core.IdGenerator.{IdGenerator}
use sakumock.Prelude.{String, Option, none, some, List, [], ◌∷◌}

pub data Call : Type 0 where
  next : Call
  reserve : String → String → Call
  observe : String → Call

-- The generator after a call.
pub call : IdGenerator → Call → IdGenerator
unfolding IdGenerator.next_id IdGenerator.reserve IdGenerator.observe
call g next = (IdGenerator.next_id g).0
call g (reserve id owner) = (IdGenerator.reserve g id owner).0
call g (observe id) = IdGenerator.observe g id

-- The IDs that Next hands out along a sequence of calls.
pub issued : IdGenerator → List Call → List String
unfolding call IdGenerator.next_id
issued g [] = []
issued g (next ∷ calls) = (IdGenerator.next_id g).1 ∷ issued (call g next) calls
issued g (reserve id owner ∷ calls) = issued (call g (reserve id owner)) calls
issued g (observe id ∷ calls) = issued (call g (observe id)) calls
