-- ===== src/Examples/Files.antt =====
-- The path of the socket on a concrete file system: the type of each entry, by its path.
use iec104bridge.Base.{false, Bool, ℕ, ◌≡◌, refl, true, if◌then◌else◌, [], ◌∷◌}
use iec104bridge.Environment.{same}
use iec104bridge.Socket.{
  FilePath, directory, socket, Inspected, found, missing, unreadable, Creation, created,
  already_exists, denied, FileSystem, bind,
}
use iec104bridge.Socket.Modes.{resetting, bind-resetting}
use iec104bridge.Socket.Prepared.{KeepsExisting}

abbrev Tree : Type 0
Tree = FilePath → Inspected

abbrev put : FilePath → Inspected → Tree → Tree
put p i tree q = if same p q then i else tree q

abbrev make : FilePath → Inspected → Tree → Creation × Tree
make p (found t) tree = (already_exists, tree)
make p missing tree = (created, put p (found directory) tree)
make p unreadable tree = (denied, tree)

abbrev pub memory : FileSystem
memory = record {
  State = Tree;
  create_dir = λ p tree. make p (tree p) tree;
  symlink_metadata = λ p tree. tree p;
  remove_file = λ p tree. (true, put p missing tree);
  set_permissions = λ p mode tree. (true, tree);
  bind_listener = λ p tree. (true, put p (found socket) tree);
}

memory-KeepsExisting : KeepsExisting memory
memory-KeepsExisting path t s e = rw e ((λ k. cc), λ k. cc)

-- A socket that was left at `[1, 5]`, in a directory that exists.
abbrev pub stale : Tree
stale = put (1 ∷ 5 ∷ []) (found socket) (put (5 ∷ []) (found directory) (λ p. missing))

-- Permissions can be set at the path of the socket only.
abbrev strict : FilePath → ℕ → Tree → Bool × Tree
strict p mode tree = if same (1 ∷ 5 ∷ []) p then (true, tree) else (false, tree)

bind-resetting_example :
    bind (resetting memory strict) (1 ∷ 5 ∷ []) stale ≡ bind memory (1 ∷ 5 ∷ []) stale
unfolding same
bind-resetting_example =
    bind-resetting memory strict 1 (5 ∷ []) (λ mode s. refl) memory-KeepsExisting directory stale
      refl
