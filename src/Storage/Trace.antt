-- ===== src/Storage/Trace.antt =====
-- src/dynamokv/storage/base.py: sequences of calls of a backend and their answers.
use secure_dynamo_kv_store.Prelude.{◌≡◌, refl, ap₂, String, Bool, Option, string_eq, List, [], ◌∷◌}
use secure_dynamo_kv_store.Prelude.Result.{Result}
use secure_dynamo_kv_store.Dict
use secure_dynamo_kv_store.Dict.{Dict, is_some}
use secure_dynamo_kv_store.Storage.{StorageBackend, StorageLaws}
use secure_dynamo_kv_store.Storage.Memory.{memory_storage}

pub data Call (A : Type 0) : Type 0 where
  get delete exists : String → Call A
  put : String → A → Call A

pub data Answer (A : Type 0) : Type 0 where
  value : Result (Option A) → Answer A
  flag : Bool → Answer A
  done : Answer A

module _ {A : Type 0} (b : StorageBackend A) where
  unfoldable pub after : b.State → Call A → b.State
  after s (get k) = s
  after s (delete k) = (b.delete s k).0
  after s (exists k) = s
  after s (put k v) = b.put s k v

  unfoldable pub answer : b.State → Call A → Answer A
  answer s (get k) = value (b.get s k)
  answer s (delete k) = flag (b.delete s k).1
  answer s (exists k) = flag (b.exists s k)
  answer s (put k v) = done

  unfoldable pub answers : b.State → List (Call A) → List (Answer A)
  unfolding after answer
  answers s [] = []
  answers s (c ∷ calls) = answer s c ∷ answers (after s c) calls

module _ {A : Type 0} (b : StorageBackend A) (laws : StorageLaws b) where
  -- The backend's state and the dict show the same map.
  record Matches (s : b.State) (d : Dict String A) : Type 0 where
    valid : laws.IsValid s
    same : (k : String) → laws.view s k ≡ Dict.get d k

  Matches-after :
      (s : b.State) (d : Dict String A) (c : Call A)
      → Matches s d
      → Matches (after b s c) (after memory_storage d c)
  unfolding after
  Matches-after s d (get k) m = m
  Matches-after s d (delete k) m = record {
    valid = laws.delete-IsValid s k m.valid;
    same = λ j. rw (laws.delete-view s k j m.valid, Dict.get-remove, m.same j);
  }
  Matches-after s d (exists k) m = m
  Matches-after s d (put k v) m = record {
    valid = laws.put-IsValid s k v m.valid;
    same = λ j. rw (laws.put-view s k j v m.valid, Dict.get-put, m.same j);
  }

  answer-Matches :
      (s : b.State) (d : Dict String A) (c : Call A)
      → Matches s d
      → answer b s c ≡ answer memory_storage d c
  unfolding answer
  answer-Matches s d (get k) m = rw (laws.get-view s k m.valid, m.same k)
  answer-Matches s d (delete k) m = rw (laws.delete-existed s k m.valid, m.same k)
  answer-Matches s d (exists k) m = rw (laws.exists-view s k m.valid, m.same k)
  answer-Matches s d (put k v) m = refl

  answers-Matches :
      (calls : List (Call A)) (s : b.State) (d : Dict String A)
      → Matches s d
      → answers b s calls ≡ answers memory_storage d calls
  unfolding answers
  answers-Matches [] s d m = refl
  answers-Matches (c ∷ calls) s d m =
      ap₂ ◌∷◌ (answer-Matches s d c m)
        (answers-Matches calls (after b s c) (after memory_storage d c) (Matches-after s d c m))

  -- From its first state, a lawful backend gives every sequence of calls the answers of the dict.
  pub answers-memory :
      (calls : List (Call A)) → answers b b.init calls ≡ answers memory_storage [] calls
  unfolding Dict.get
  answers-memory calls =
      answers-Matches calls b.init [] (record { valid = laws.init-IsValid; same = laws.init-view })
