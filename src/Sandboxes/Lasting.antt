-- ===== src/Sandboxes/Lasting.antt =====
-- internal/sandbox/store.go: that a run keeps its sandbox.
use nomici_orchestrator.Common.{
  String, ◌==◌, eq_iff, ◌≡◌, refl, ap, ◌⊎◌, inl, inr, Bool, true, ◌&&◌, some, List, [], ◌∷◌, arith,
  map-eq-some,
}
use nomici_orchestrator.Common.Table
use nomici_orchestrator.Common.Table.{Extends}
use nomici_orchestrator.Common.Table.Laws.{All-always}
use nomici_orchestrator.Common.Table.Extending.{
  Extends-refl, Extends-trans, Extends-insert, Extends-update, Extends-find,
}
use nomici_orchestrator.Store.{Db, World, final}
use nomici_orchestrator.Store.Moves.{Preorder, Moves, moves_rules, Moves-exec, Moves-exec_insert}
use nomici_orchestrator.Store.Rows.{Sandbox}
use nomici_orchestrator.Sandboxes.{
  Machine, CreateRecordRequest, cleanup_active, cleanup_released, clash, insert_sandbox, make_dirs,
  create_for_run, release_sandbox, release_by_run, of_run,
}

-- What may become of a sandbox: it is as it was, or it was active and is released now. Everything but
-- the times and the cleanup status is as it was.
pub record Lasts (a b : Sandbox) : Type 0 where
  pub once : (a.cleanup_status ≡ cleanup_active) ⊎ (b ≡ a)
  pub released : (b.cleanup_status ≡ cleanup_released) ⊎ (b ≡ a)
  pub same : b ≡ record a {
    cleanup_status = b.cleanup_status;
    updated_at = b.updated_at;
    released_at = b.released_at;
  }

Lasts-refl : (a : Sandbox) → Lasts a a
Lasts-refl a = record { once = inr refl; released = inr refl; same = refl }

Lasts-trans : (a b c : Sandbox) → Lasts a b → Lasts b c → Lasts a c
Lasts-trans a b c h k = ground arith

abbrev Progress : Db → Db → Type 0
Progress a b = Extends Lasts a.sandbox_records b.sandbox_records

Progress-Preorder : Preorder Progress
Progress-Preorder = record {
  same = λ a. Extends-refl Lasts Lasts-refl a.sandbox_records;
  trans = λ a b c h k.
      Extends-trans Lasts Lasts-trans a.sandbox_records b.sandbox_records c.sandbox_records h k;
}

insert_sandbox-Progress : (s : Sandbox) (a b : Db) → insert_sandbox s a ≡ some b → Progress a b
unfolding insert_sandbox
insert_sandbox-Progress s a b e =
    let (rows, inserted, same) = map-eq-some _ (Table.insert clash s a.sandbox_records) e in
    rw (← same) (Extends-insert Lasts Lasts-refl clash s a.sandbox_records inserted)

release_sandbox-Progress :
    (at run_id : String) (db : Db) → Progress db (release_sandbox at run_id db)
unfolding release_sandbox
release_sandbox-Progress at run_id db = Extends-update Lasts Lasts-refl _ _ db.sandbox_records (
    All-always _
      (λ a e. record {
        once = inl ((eq_iff a.cleanup_status cleanup_active).0 (both (a.run_id == run_id) _ e));
        released = inl refl;
        same = refl;
      })
      db.sandbox_records)
  where
    both : (b c : Bool) → b && c ≡ true → c ≡ true
    both b c h = ground arith

release_by_run-Progress : (run_id : String) → Moves Progress (release_by_run run_id)
unfolding release_by_run
release_by_run-Progress run_id =
    search (moves_rules, Moves-exec, Progress-Preorder, release_sandbox-Progress) depth 8

-- What the program asks of the store.
pub data SandboxCall : Type 0 where
  creates : CreateRecordRequest → SandboxCall
  releases : String → SandboxCall

module _ (machine : Machine) where
  -- the world after a list of calls, whatever each of them returns
  pub serve : SandboxCall → World → World
  serve (creates request) w = final (create_for_run machine request w)
  serve (releases run_id) w = final (release_by_run run_id w)

  pub serve_all : List SandboxCall → World → World
  serve_all [] w = w
  serve_all (c ∷ cs) w = serve_all cs (serve c w)

  -- `quiet`: to make a directory writes nothing to the database.
  module _ (quiet : (path : String) (w : World) → (final (machine.make_dir path w)).db ≡ w.db) where
    make_dir-Progress : (path : String) → Moves Progress (machine.make_dir path)
    make_dir-Progress path = record { at = λ w. rw (quiet path w) (Progress-Preorder.same w.db) }

    make_dirs-Progress : (a b : String) → Moves Progress (make_dirs machine a b)
    unfolding make_dirs
    make_dirs-Progress a b = search (moves_rules, Progress-Preorder, make_dir-Progress) depth 12

    create_for_run-Progress :
        (request : CreateRecordRequest) → Moves Progress (create_for_run machine request)
    unfolding create_for_run
    create_for_run-Progress request =
        search
          (
            moves_rules, Moves-exec_insert, Progress-Preorder, insert_sandbox-Progress,
            make_dirs-Progress,
          )
          depth 12

    serve-Progress : (c : SandboxCall) (w : World) → Progress w.db (serve c w).db
    unfolding serve
    serve-Progress (creates request) w = (create_for_run-Progress request).at w
    serve-Progress (releases run_id) w = (release_by_run-Progress run_id).at w

    serve_all-Progress :
        (calls : List SandboxCall) (w : World) → Progress w.db (serve_all calls w).db
    unfolding serve_all
    serve_all-Progress [] w = Progress-Preorder.same w.db
    serve_all-Progress (c ∷ cs) w =
        Progress-Preorder.trans w.db (serve c w).db (serve_all cs (serve c w)).db
          (serve-Progress c w) (serve_all-Progress cs (serve c w))

    -- If a run has a sandbox, it has the same one after any sandboxes are created and released, whatever
    -- fails: the mode, the provider and the directories are as they were, and only an active sandbox is
    -- changed, and only to a released one, which stays as it is. To make a directory must write nothing
    -- to the database.
    pub serve_all-Lasts :
        (calls : List SandboxCall) (w : World) (run_id : String) {s : Sandbox}
        → Table.find (of_run run_id) w.db.sandbox_records ≡ some s
        → (t : Sandbox) × (Table.find (of_run run_id) (serve_all calls w).db.sandbox_records
            ≡ some t)
          × Lasts s t
    serve_all-Lasts calls w run_id there =
        Extends-find Lasts (of_run run_id) (λ a b h. ap (λ (x : Sandbox). of_run run_id x) h.same)
          w.db.sandbox_records (serve_all calls w).db.sandbox_records (serve_all-Progress calls w)
          there
