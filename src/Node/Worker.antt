-- ===== src/Node/Worker.antt =====
-- src/dynamokv/gossip_worker.py: the thread that runs gossip rounds.
use secure_dynamo_kv_store.Prelude.{
  ℕ, String, string_eq, Bool, true, false, List, [], ◌∷◌, if◌then◌else◌,
}
use secure_dynamo_kv_store.VectorClock.{Version}
use secure_dynamo_kv_store.HintStore.{Blob}
use secure_dynamo_kv_store.Storage.{StorageBackend, StorageLaws}
use secure_dynamo_kv_store.Node.Replica.{Node, Stored}
use secure_dynamo_kv_store.Node.Network.{Fate, Cluster}
use secure_dynamo_kv_store.Node.Background.{Times, gossip_round}
use secure_dynamo_kv_store.Node.Growth.{AllSound, Grows, Grows-refl, Grows-trans}
use secure_dynamo_kv_store.Node.Rounds.{gossip_round-Grows}

-- Whether there is a thread, and whether the stop event is set.
pub record Worker : Type 0 where
  pub thread : Bool
  pub stop_event : Bool

unfoldable pub start : Worker → Worker
start w = if w.thread then w else record { thread = true; stop_event = false }

-- The thread is joined and forgotten.
unfoldable pub stop : Worker → Worker
stop w = record { thread = false; stop_event = true }

-- One turn of the loop: whether the wait ended with the stop event, and what the round meets.
pub record Turn (V : Type 0) : Type 0 where
  pub stopped : Bool
  pub choice : List String → String
  pub fate : Fate
  pub net : String → String → Version V → Fate
  pub times : Times

module _ {V : Type 0} (sb : StorageBackend (Stored V)) (hb : StorageBackend (Blob V)) where
  -- `_run`: whatever a round raises is swallowed.
  unfoldable pub run : Node → List (Turn V) → Cluster sb hb → Cluster sb hb
  run node [] cl = cl
  run node (turn ∷ turns) cl =
      let go_on = run node turns in
      if turn.stopped
      then cl
      else go_on (gossip_round sb hb node turn.choice turn.fate turn.net turn.times cl).1

module _ {V : Type 0} (hash : String → ℕ) (sb : StorageBackend (Stored V))
    (hb : StorageBackend (Blob V)) (laws : StorageLaws sb) where
  run_if :
      (b : Bool) (cl a c : Cluster sb hb)
      → Grows hash sb hb laws cl a
      → Grows hash sb hb laws cl c
      → Grows hash sb hb laws cl (if b then a else c)
  run_if true cl a c g h = g
  run_if false cl a c g h = h

  -- However many gossip rounds the worker runs, whichever peers they choose, whatever becomes of
  -- their requests and whatever they raise: where every replica's storage is in a valid state it
  -- stays so, and what a stored version had seen, one still has.
  pub run-Grows :
      (node : Node) (turns : List (Turn V)) (cl : Cluster sb hb)
      → AllSound hash sb hb laws cl
      → Grows hash sb hb laws cl (run sb hb node turns cl)
  unfolding run
  run-Grows node [] cl h = Grows-refl hash sb hb laws cl h
  run-Grows node (turn ∷ turns) cl h =
      let g =
        gossip_round-Grows hash sb hb laws node turn.choice turn.fate turn.net turn.times cl h in
      run_if turn.stopped cl cl _ (Grows-refl hash sb hb laws cl h)
        (Grows-trans hash sb hb laws g (run-Grows node turns _ g.sound))
