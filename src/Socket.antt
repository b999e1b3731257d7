-- ===== src/Socket.antt =====
-- The path of the Unix socket (source.rs, `UnixSocketSource::bind` and its helpers). The
-- file system is a parameter; a path is its components, the last one first, so that the parent is the
-- tail and the empty path has none.
pub mod Prepared
pub mod Modes
use iec104bridge.Base.{ℕ, Bool, true, false, Option, none, some, List, [], ◌∷◌, if◌then◌else◌}
use iec104bridge.Base.Result.{Result, ok, err}

abbrev pub FilePath : Type 0
FilePath = List ℕ

-- `Metadata::file_type`, of the entry itself and not of what a link leads to.
pub data FileType : Type 0 where
  directory symlink socket regular special : FileType

pub data Inspected : Type 0 where
  found : FileType → Inspected
  missing unreadable : Inspected

pub data Creation : Type 0 where
  created already_exists no_such_parent denied : Creation

-- What is used of `std::fs`, and `UnixListener::bind`, each call with its answer and the state
-- after it.
pub record FileSystem : Type 1 where
  pub State : Type 0
  pub create_dir : FilePath → State → Creation × State
  pub symlink_metadata : FilePath → State → Inspected
  pub remove_file : FilePath → State → Bool × State
  pub set_permissions : FilePath → ℕ → State → Bool × State
  pub bind_listener : FilePath → State → Bool × State

pub data SocketError : Type 0 where
  no_parent create_failed inspect_failed not_a_directory is_symlink : SocketError
  remove_failed not_removable bind_failed permissions_failed : SocketError

module _ (fs : FileSystem) where
  abbrev pub Action : Type 0 → Type 0
  Action A = fs.State → Result SocketError A × fs.State

  settled : Creation × fs.State → Result SocketError Bool × fs.State
  settled (created, s) = (ok true, s)
  settled (already_exists, s) = (ok false, s)
  settled (no_such_parent, s) = (err create_failed, s)
  settled (denied, s) = (err create_failed, s)

  -- The second attempt, once the parent is there.
  create_again : FilePath → Result SocketError Bool × fs.State → Result SocketError Bool × fs.State
  unfolding settled
  create_again path (ok b, s) = settled (fs.create_dir path s)
  create_again path (err e, s) = (err e, s)

  attempted : FilePath → Creation → Action Bool → Action Bool
  unfolding create_again
  attempted path created make_parent s = (ok true, s)
  attempted path already_exists make_parent s = (ok false, s)
  attempted path no_such_parent make_parent s = create_again path (make_parent s)
  attempted path denied make_parent s = (err create_failed, s)

  create_directory_if_missing : FilePath → Action Bool
  unfolding attempted
  create_directory_if_missing [] s =
      let (a, s') = fs.create_dir [] s in attempted [] a (λ t. (err no_parent, t)) s'
  create_directory_if_missing (c ∷ parent) s =
      let (a, s') = fs.create_dir (c ∷ parent) s in
      attempted (c ∷ parent) a (create_directory_if_missing parent) s'

  checked : Bool → Inspected → Action Bool
  checked b (found directory) s = (ok b, s)
  checked b missing s = (err inspect_failed, s)
  checked b unreadable s = (err inspect_failed, s)
  checked b (found t) s = (err not_a_directory, s)

  inspect_parent :
      FilePath → Result SocketError Bool × fs.State → Result SocketError Bool × fs.State
  unfolding checked
  inspect_parent parent (ok b, s) = checked b (fs.symlink_metadata parent s) s
  inspect_parent parent (err e, s) = (err e, s)

  ensure_socket_parent_dir : FilePath → Action Bool
  unfolding inspect_parent create_directory_if_missing
  ensure_socket_parent_dir parent s = inspect_parent parent (create_directory_if_missing parent s)

  removed : Bool × fs.State → Result SocketError (Unit {0}) × fs.State
  removed (true, s) = (ok tt, s)
  removed (false, s) = (err remove_failed, s)

  remove_existing_socket_entry : FilePath → FileType → Action (Unit {0})
  unfolding removed
  remove_existing_socket_entry path symlink s = (err is_symlink, s)
  remove_existing_socket_entry path socket s = removed (fs.remove_file path s)
  remove_existing_socket_entry path regular s = removed (fs.remove_file path s)
  remove_existing_socket_entry path directory s = (err not_removable, s)
  remove_existing_socket_entry path special s = (err not_removable, s)

  remove_inspected : FilePath → Inspected → Action (Unit {0})
  unfolding remove_existing_socket_entry
  remove_inspected path (found t) s = remove_existing_socket_entry path t s
  remove_inspected path missing s = (ok tt, s)
  remove_inspected path unreadable s = (err inspect_failed, s)

  pub remove_existing_socket_path : FilePath → Action (Unit {0})
  unfolding remove_inspected
  remove_existing_socket_path path s = remove_inspected path (fs.symlink_metadata path s) s

  returning : Bool → Result SocketError (Unit {0}) × fs.State → Result SocketError Bool × fs.State
  returning b (ok _, s) = (ok b, s)
  returning b (err e, s) = (err e, s)

  cleared : FilePath → Result SocketError Bool × fs.State → Result SocketError Bool × fs.State
  unfolding remove_existing_socket_path returning
  cleared path (ok b, s) = returning b (remove_existing_socket_path path s)
  cleared path (err e, s) = (err e, s)

  unfoldable pub prepare_socket_path : FilePath → Action Bool
  unfolding ensure_socket_parent_dir cleared
  prepare_socket_path [] s = (err no_parent, s)
  prepare_socket_path (c ∷ parent) s = cleared (c ∷ parent) (ensure_socket_parent_dir parent s)

  permitted : Bool × fs.State → Result SocketError (Unit {0}) × fs.State
  permitted (true, s) = (ok tt, s)
  permitted (false, s) = (err permissions_failed, s)

  -- 0o660 is 432 and 0o750 is 488.
  then_path :
      FilePath → Result SocketError (Unit {0}) × fs.State → Result SocketError (Unit {0}) × fs.State
  unfolding permitted
  then_path path (ok _, s) = permitted (fs.set_permissions path 432 s)
  then_path path (err e, s) = (err e, s)

  -- The parent is there when this is called (`expect`); without one nothing is done.
  unfoldable pub set_socket_permissions : FilePath → Bool → Action (Unit {0})
  unfolding then_path
  set_socket_permissions [] created_parent_dir s = (err no_parent, s)
  set_socket_permissions (c ∷ parent) false s = then_path (c ∷ parent) (ok tt, s)
  set_socket_permissions (c ∷ parent) true s =
      then_path (c ∷ parent) (permitted (fs.set_permissions parent 488 s))

  listened : FilePath → Bool → Bool × fs.State → Result SocketError (Unit {0}) × fs.State
  unfolding set_socket_permissions
  listened path created_parent_dir (true, s) = set_socket_permissions path created_parent_dir s
  listened path created_parent_dir (false, s) = (err bind_failed, s)

  prepared :
      FilePath → Result SocketError Bool × fs.State → Result SocketError (Unit {0}) × fs.State
  unfolding listened
  prepared path (ok b, s) = listened path b (fs.bind_listener path s)
  prepared path (err e, s) = (err e, s)

  -- `UnixSocketSource::bind`
  unfoldable pub bind : FilePath → Action (Unit {0})
  unfolding prepare_socket_path prepared
  bind path s = prepared path (prepare_socket_path path s)
