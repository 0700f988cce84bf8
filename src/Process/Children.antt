-- ===== src/Process/Children.antt =====
-- The children whose status is not collected yet (childlist.c), and the SIGCHLD handler that goes
-- through them (sigchld.c).
pub mod Sweep
use processx.Base.{
  ℕ, zero, suc, ◌≡◌, refl, Bool, true, false, Option, none, some, List, [], ◌∷◌, ◌==◌,
  if◌then◌else◌,
}
use processx.Process.Types.{
  WaitStatus, WaitOutcome, running, reaped, no_child, wait_error, KillOutcome, sent, process,
  Handle, Os,
}
use processx.Process.Status.{close_if}
use processx.Process.Wait.{reap_handle}
use processx.Process.Kill.{sigkill}

-- `processx__child_list_t`. `weak_status` is the number of the R object that it refers to.
pub record Child : Type 0 where
  pub pid : ℕ
  pub weak_status : ℕ

-- The handles of the R objects (`none` for one that is gone or cleared).
abbrev pub Handles : Type 0
Handles = ℕ → Option Handle

unfoldable pub put : ℕ → Handle → Handles → Handles
put key h hs k = if k == key then some h else hs k

-- `child_list` and `child_free_list`, each without its head node.
pub record Lists : Type 0 where
  pub children : List Child
  pub free : List Child

-- `processx__freelist_add`
unfoldable pub freelist_add : Child → Lists → Lists
freelist_add child l = record l { free = child ∷ l.free }

-- `processx__freelist_free`
unfoldable pub freelist_free : Lists → Lists
freelist_free l = record l { free = [] }

-- `processx__child_add`
unfoldable pub child_add : ℕ → ℕ → Lists → Lists
child_add pid status l = record l {
  children = record { pid = pid; weak_status = status } ∷ l.children;
}

-- The child with a pid and the list without it.
unfoldable pub unlink : ℕ → List Child → Option (Child × List Child)
unlink pid [] = none
unlink pid (c ∷ cs) =
    let later = unlink pid cs in
    if c.pid == pid
    then some (c, cs)
    else elim later [ none ↦ none | some (x, rest) ↦ some (x, c ∷ rest) ]

-- `processx__child_remove`
unfoldable pub child_remove : ℕ → Lists → Lists
unfolding unlink freelist_add
child_remove pid l = elim (unlink pid l.children) [
  | none ↦ l
  | some (x, rest) ↦ freelist_add x (record l { children = rest })
]

-- `processx__child_find`
unfoldable pub child_find : ℕ → List Child → Option Child
child_find pid [] = none
child_find pid (c ∷ cs) = let later = child_find pid cs in if c.pid == pid then some c else later

-- Whether a child leaves the list, and the status that it leaves with (`none` is NA).
abbrev pub exit_of : WaitOutcome → Option (Option WaitStatus)
exit_of running = none
exit_of wait_error = none
exit_of (reaped st) = some (some st)
exit_of no_child = some none

module _ (O : Os) where
  -- The lists, the handles and the world, as the handler changes them.
  pub record Table : Type 0 where
    pub lists : Lists
    pub handles : Handles
    pub world : O.World

  -- The status of a child that is gone goes to its handle, if that is still there.
  unfoldable pub reap_found :
      Option Handle → Option WaitStatus → ℕ → Handles → O.World → Handles × O.World
  unfolding reap_handle put
  reap_found none wstat key hs w = (hs, w)
  reap_found (some h) wstat key hs w = let (h', w') = reap_handle O wstat h w in (put key h' hs, w')

  abbrev pub reap_child : Option WaitStatus → ℕ → Handles → O.World → Handles × O.World
  unfolding reap_found
  reap_child wstat key hs w = reap_found (hs key) wstat key hs w

  -- The loop of `processx__sigchld_callback` over the nodes from `ptr` on. It gives the nodes
  -- that stay, and what becomes of the free list, the handles and the world.
  unfoldable pub callback_loop :
      List Child → List Child → Handles → O.World → Lists × (Handles × O.World)
  unfolding reap_child
  callback_loop [] free hs w = (record { children = []; free = free }, (hs, w))
  callback_loop (c ∷ cs) free hs w =
      let (o, w') = O.waitpid true c.pid w in
      elim (exit_of o) [
        | none ↦
            let (l, out) = callback_loop cs free hs w' in
            (record l { children = c ∷ l.children }, out)
        | some wstat ↦
            let (hs', w'') = reap_child wstat c.weak_status hs w' in
            callback_loop cs (c ∷ free) hs' w''
      ]

  -- `processx__sigchld_callback`, on the main thread and for SIGCHLD. The call of the handler
  -- that was there before is left out.
  unfoldable pub sigchld_callback : Table → Table
  unfolding callback_loop
  sigchld_callback t =
      let (l, (hs, w)) = callback_loop t.lists.children t.lists.free t.handles t.world in
      record { lists = l; handles = hs; world = w }

  -- The loop of `processx__unload_cleanup` over the children: the handles are cleared, and the
  -- processes with `cleanup` killed and waited for. The number is how many were killed.
  unfoldable pub unload_loop : List Child → ℕ → Handles → O.World → ℕ × (Handles × O.World)
  unload_loop [] killed hs w = (killed, (hs, w))
  unload_loop (c ∷ cs) killed hs w =
      let hs' = λ (k : ℕ). if k == c.weak_status then none else hs k in
      let (r, w1) = O.kill (process c.pid) sigkill w in
      let (o, w2) = O.waitpid false c.pid w1 in
      let cleaned = unload_loop cs (elim r [ sent ↦ suc killed | _ ↦ killed ]) hs' w2 in
      let left = unload_loop cs killed hs' w in
      elim (hs c.weak_status) [ none ↦ left | some h ↦ if h.cleanup then cleaned else left ]

  -- `processx__unload_cleanup`; the handler is removed before, and the number is printed.
  unfoldable pub unload_cleanup : Table → ℕ × Table
  unfolding unload_loop freelist_free
  unload_cleanup t =
      let (killed, (hs, w)) = unload_loop t.lists.children 0 t.handles t.world in
      (
        killed,
        record {
          lists = freelist_free (record (t.lists) { children = [] });
          handles = hs;
          world = w;
        },
      )
