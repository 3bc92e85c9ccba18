-- ===== src/Service/Rates/Backup.antt =====
-- The backup of the target rates, and the sessions that are set up from them: `BackupTgtRates`,
-- `RecoverTgtRates`, `RevertTgtRates` and `refillTaskList` of src/service/global_scheduler.cpp. `none` is
-- an abort.
use glet.Common.{
  ◌>>=◌, ℕ, Option, none, some, List, [], ◌∷◌, ◌++◌, String, if◌then◌else◌, lookup_or, insert,
  string_key, get_elem?,
}
use glet.Float.{Float}
use glet.Scheduler.State.{Task, Store}
use glet.Service.Rates.{Targets, Models, max_element, rate_of, session_of}

module _ {F : Type 0} ⦃R : Float F⦄ where
  open R use {lit, add, eq, lt}

  -- `BackupTgtRates org backup`; `RecoverTgtRates` is the same loop the other way.
  unfoldable pub backup_tgt_rates : (org backup : List (String × F)) → List (String × F)
  unfolding insert
  backup_tgt_rates [] backup = backup
  backup_tgt_rates ((name, r) ∷ org) backup = backup_tgt_rates org (insert name r backup)

  unfoldable pub recover_tgt_rates : (org backup : List (String × F)) → List (String × F)
  unfolding backup_tgt_rates
  recover_tgt_rates org backup = backup_tgt_rates backup org

  -- The inner loop of `RevertTgtRates`, over the tasks of a node.
  unfoldable pub add_throughputs :
      Models F → Store F → List ℕ → List (String × F) → Option (List (String × F))
  unfolding insert rate_of
  add_throughputs m s [] tgt = some tgt
  add_throughputs m s (t ∷ ts) tgt = do
    name ← get_elem? m.names (s.tasks t).id
    add_throughputs m s ts (insert name (add (rate_of tgt name) (s.tasks t).throughput) tgt)

  unfoldable pub revert_nodes :
      Models F → Store F → List ℕ → List (String × F) → Option (List (String × F))
  unfolding add_throughputs
  revert_nodes m s [] tgt = some tgt
  revert_nodes m s (n ∷ ns) tgt = do
    tgt' ← add_throughputs m s (s.nodes n).task_list tgt
    revert_nodes m s ns tgt'

  -- `RevertTgtRates`. Its first loop sets the rates of copies to 0 and changes nothing.
  unfoldable pub revert_tgt_rates :
      Models F → Store F → (gpus : List ℕ) → List (String × F) → Option (List (String × F))
  unfolding revert_nodes
  revert_tgt_rates m s [] tgt = some tgt
  revert_tgt_rates m s (g ∷ gs) tgt = do
    tgt' ← revert_nodes m s (s.gpus g).node_list tgt
    revert_tgt_rates m s gs tgt'

  -- `refillTaskList`: the targets, and the names that get a task.
  unfoldable pub refill_targets :
      Models F → List String → Targets F → Option (Targets F × List String)
  unfolding rate_of insert max_element lookup_or
  refill_targets m [] x = some (x, [])
  refill_targets m (name ∷ names) x =
      if eq (m.ariv_rate name) (lit 0 0)
      then refill_targets m names x
      else elim (lookup_or [] name x.hist) [
        | [] ↦ none
        | r ∷ rs ↦ do
          let old = rate_of x.tgt name
          let best = max_element r rs
          (x', more) ←
              refill_targets m names
                (record x { tgt = insert name (if lt old best then best else old) x.tgt })
          some (x', name ∷ more)
      ]

  unfoldable pub refill_task_list :
      Models F
      → (net_names : List String) → Targets F
      → List (Task F)
      → Option (Targets F × List (Task F))
  unfolding refill_targets session_of
  refill_task_list m net_names x output = do
    (x', names) ← refill_targets m net_names x
    tasks ← session_of m x'.tgt names
    some (x', output ++ tasks)
