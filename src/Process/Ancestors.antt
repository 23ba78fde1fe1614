-- ===== src/Process/Ancestors.antt =====
-- The tree that `inspect_process_tree` returns.
use secretd.Prelude.{
  ℕ, zero, suc, ◌≤◌, ◌≡◌, refl, ◌≢◌, false, ◌||◌, Option, none, some, List, [], ◌∷◌, arith, length,
  All, any, ◌==◌, Bool-cases, inl, inr, subst,
}
use secretd.Prelude.Result.{Result, ok, err, ◌>>=◌}
use secretd.Process.Defs.{
  ProcessIdentity, ProcFs, StatRead, contents, absent, failed, inspect_process, inspect_stat,
  inspect_read, inspect_parent, inspect_ancestors, inspect_process_tree, stat_fields,
}

-- Each process is the parent of the one before it.
abbrev pub Linked : ℕ → List ProcessIdentity → Type 0
Linked pid [] = Unit
Linked pid (process ∷ tree) = (process.pid ≡ pid) × Linked process.ppid tree

abbrev pub Unvisited : List ℕ → List ProcessIdentity → Type 0
Unvisited visited = All (λ process. any (λ p. p == process.pid) visited ≡ false)

-- No process ID stands twice.
abbrev pub DistinctPids : List ProcessIdentity → Type 0
DistinctPids [] = Unit
DistinctPids (process ∷ tree) = All (λ other. other.pid ≢ process.pid) tree × DistinctPids tree

inspect_stat-pid :
    (files : ProcFs) (pid : ℕ) (fields : Option (ℕ × List ℕ)) (identity : ProcessIdentity)
    → inspect_stat files pid fields ≡ some identity
    → identity.pid ≡ pid
unfolding inspect_stat
inspect_stat-pid files pid none identity e = cc
inspect_stat-pid files pid (some (ppid, started_at)) identity e = ground arith

inspect_read-pid :
    (files : ProcFs) (pid : ℕ) (stat : StatRead) (identity : ProcessIdentity)
    → inspect_read files pid stat ≡ ok (some identity)
    → identity.pid ≡ pid
unfolding inspect_read
inspect_read-pid files pid (contents stat) identity e =
    inspect_stat-pid files pid (stat_fields stat) identity (ground arith)
inspect_read-pid files pid absent identity e = cc
inspect_read-pid files pid (failed message) identity e = cc

-- An inspection answers for the process that was asked for.
pub inspect_process-pid :
    (files : ProcFs) (pid : ℕ) (identity : ProcessIdentity)
    → inspect_process files pid ≡ ok (some identity)
    → identity.pid ≡ pid
unfolding inspect_process
inspect_process-pid files pid identity e = inspect_read-pid files pid (files.stat pid) identity e

record Walk (room : ℕ) (visited : List ℕ) (pid : ℕ) (tree : List ProcessIdentity) : Type 0 where
  short : length tree ≤ room
  linked : Linked pid tree
  unvisited : Unvisited visited tree
  distinct : DistinctPids tree

Unvisited-weaken :
    (p : ℕ) (visited : List ℕ) (tree : List ProcessIdentity)
    → Unvisited (p ∷ visited) tree
    → Unvisited visited tree
unfolding any
Unvisited-weaken p visited [] h = tt
Unvisited-weaken p visited (process ∷ tree) h = (ground arith, Unvisited-weaken p visited tree h.1)

Unvisited-distinct :
    (p : ℕ) (visited : List ℕ) (tree : List ProcessIdentity)
    → Unvisited (p ∷ visited) tree
    → All (λ other. other.pid ≢ p) tree
unfolding any
Unvisited-distinct p visited [] h = tt
Unvisited-distinct p visited (process ∷ tree) h =
    (λ e. ground arith, Unvisited-distinct p visited tree h.1)

Walk-cons :
    (room : ℕ) (visited : List ℕ) (pid : ℕ) (identity : ProcessIdentity)
    (tree : List ProcessIdentity)
    → identity.pid ≡ pid
    → any (λ p. p == pid) visited ≡ false
    → Walk room (pid ∷ visited) identity.ppid tree
    → Walk (suc room) visited pid (identity ∷ tree)
Walk-cons room visited pid identity tree e fresh w = record {
  short = omega (arith, w.short);
  linked = (e, w.linked);
  unvisited = (rw e fresh, Unvisited-weaken pid visited tree w.unvisited);
  distinct = (rw e (Unvisited-distinct pid visited tree w.unvisited), w.distinct);
}

Walk-nil : (room : ℕ) (visited : List ℕ) (pid : ℕ) → Walk room visited pid []
Walk-nil room visited pid = record {
  short = omega arith;
  linked = tt;
  unvisited = tt;
  distinct = tt;
}

-- a finished walk, where the inspections raised no error
abbrev Walks : ℕ → List ℕ → ℕ → Result (List ProcessIdentity) → Type 0
Walks room visited pid (ok tree) = Walk room visited pid tree
Walks room visited pid (err e) = Unit

Walks-cons :
    (room : ℕ) (visited : List ℕ) (pid : ℕ) (identity : ProcessIdentity)
    (rest : Result (List ProcessIdentity))
    → identity.pid ≡ pid
    → any (λ p. p == pid) visited ≡ false
    → Walks room (pid ∷ visited) identity.ppid rest
    → Walks (suc room) visited pid (rest >>= λ tree. ok (identity ∷ tree))
Walks-cons room visited pid identity (ok tree) e fresh w =
    Walk-cons room visited pid identity tree e fresh w
Walks-cons room visited pid identity (err f) e fresh w = tt

inspect_parent-Walks :
    (room : ℕ) (visited : List ℕ) (pid : ℕ) (next : ℕ → Result (List ProcessIdentity))
    (found : Result (Option ProcessIdentity))
    → ((identity : ProcessIdentity) → found ≡ ok (some identity) → identity.pid ≡ pid)
    → any (λ p. p == pid) visited ≡ false
    → ((parent : ℕ) → Walks room (pid ∷ visited) parent (next parent))
    → Walks (suc room) visited pid (found >>= inspect_parent pid next)
unfolding inspect_parent
inspect_parent-Walks room visited pid next (err e) asked fresh ih = tt
inspect_parent-Walks room visited pid next (ok none) asked fresh ih =
    Walk-nil (suc room) visited pid
inspect_parent-Walks room visited pid next (ok (some identity)) asked fresh ih =
    elim (Bool-cases ((identity.ppid == 0) || (identity.ppid == pid))) [
      | inl t ↦ rw t (
          Walk-cons room visited pid identity [] (asked identity refl) fresh
            (Walk-nil room (pid ∷ visited) identity.ppid))
      | inr t ↦ rw t (
          Walks-cons room visited pid identity (next identity.ppid) (asked identity refl) fresh
            (ih identity.ppid))
    ]

inspect_ancestors-Walks :
    (files : ProcFs) (room : ℕ) (visited : List ℕ) (pid : ℕ)
    → Walks room visited pid (inspect_ancestors files room visited pid)
unfolding inspect_ancestors
inspect_ancestors-Walks files zero visited pid = Walk-nil zero visited pid
inspect_ancestors-Walks files (suc room) visited pid =
    elim (Bool-cases ((pid == 0) || any (λ p. p == pid) visited)) [
      | inl t ↦ rw t (Walk-nil (suc room) visited pid)
      | inr t ↦ rw t (
          inspect_parent-Walks room visited pid (inspect_ancestors files room (pid ∷ visited))
            (inspect_process files pid) (inspect_process-pid files pid) (ground arith)
            (inspect_ancestors-Walks files room (pid ∷ visited)))
    ]

-- A tree that was inspected has at most `limit` processes, starts at the client, goes from each
-- process to its parent and holds no process ID twice.
pub inspect_process_tree_lem :
    (files : ProcFs) (pid limit : ℕ) (tree : List ProcessIdentity)
    → inspect_process_tree files pid limit ≡ ok tree
    → (length tree ≤ limit) × Linked pid tree × DistinctPids tree
unfolding inspect_process_tree
inspect_process_tree_lem files pid limit tree e =
    let walks : Walks limit [] pid (ok tree) =
      subst (Walks limit [] pid) {y = ok tree} (ground arith)
        (inspect_ancestors-Walks files limit [] pid) in
    (walks.short, walks.linked, walks.distinct)
