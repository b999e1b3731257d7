-- ===== src/Socket/Prepared.antt =====
-- What holds of the path once it is prepared.
use iec104bridge.Base.{ℕ, ◌≡◌, ◌≢◌, refl, Bool, true, false, [], ◌∷◌}
use iec104bridge.Base.Result.{Result, ok, err}
use iec104bridge.Socket.{
  FilePath, FileType, directory, symlink, socket, regular, special, Inspected, found, missing,
  unreadable, Creation, created, already_exists, no_such_parent, denied, FileSystem, SocketError,
  attempted, create_directory_if_missing, checked, inspect_parent, ensure_socket_parent_dir,
  remove_existing_socket_path, returning, cleared, prepare_socket_path,
}

-- What `create_dir` documents: where an entry is there already, it fails, and the parent is not
-- what is missing.
abbrev pub KeepsExisting : FileSystem → Type 0
KeepsExisting fs =
    (path : FilePath) (t : FileType) (s : fs.State)
    → fs.symlink_metadata path s ≡ found t
    → ((fs.create_dir path s).0 ≢ created) × ((fs.create_dir path s).0 ≢ no_such_parent)

-- What `remove_file` documents: the file that it removed is gone, and it removes no directory, so
-- that the directory that it was removed from is still one.
pub record RemovesFiles (fs : FileSystem) : Type 0 where
  pub remove_gone :
      (path : FilePath) (s : fs.State)
      → (fs.remove_file path s).0 ≡ true
      → fs.symlink_metadata path (fs.remove_file path s).1 ≡ missing
  pub parent_stays :
      (c : ℕ) (parent : FilePath) (s : fs.State)
      → fs.symlink_metadata parent s ≡ found directory
      → fs.symlink_metadata parent (fs.remove_file (c ∷ parent) s).1 ≡ found directory

module _ (fs : FileSystem) where
  -- The path is free, and its parent is a directory.
  abbrev pub IsReady : FilePath → FilePath → Result SocketError Bool × fs.State → Type 0
  IsReady path parent (ok b, s) =
      (fs.symlink_metadata path s ≡ missing) × (fs.symlink_metadata parent s ≡ found directory)
  IsReady path parent (err e, s) = Unit

  abbrev HasParent : FilePath → Result SocketError Bool × fs.State → Type 0
  HasParent parent (ok b, s) = fs.symlink_metadata parent s ≡ found directory
  HasParent parent (err e, s) = Unit

  -- The parent was not created.
  abbrev pub IsKept : Result SocketError Bool × fs.State → Type 0
  IsKept (ok b, s) = b ≡ false
  IsKept (err e, s) = Unit

  attempted-IsKept :
      (path : FilePath) (a : Creation) (up : fs.State → Result SocketError Bool × fs.State)
      (s : fs.State)
      → a ≢ created
      → a ≢ no_such_parent
      → IsKept (attempted fs path a up s)
  unfolding attempted
  attempted-IsKept path created up s h k = absurd (h refl)
  attempted-IsKept path already_exists up s h k = refl
  attempted-IsKept path no_such_parent up s h k = absurd (k refl)
  attempted-IsKept path denied up s h k = tt

  create_directory-IsKept :
      (existing : KeepsExisting fs) (path : FilePath) (t : FileType) (s : fs.State)
      → fs.symlink_metadata path s ≡ found t
      → IsKept (create_directory_if_missing fs path s)
  unfolding create_directory_if_missing
  create_directory-IsKept existing [] t s e =
      let (h, k) = existing [] t s e in attempted-IsKept [] (fs.create_dir [] s).0 _ _ h k
  create_directory-IsKept existing (c ∷ parent) t s e =
      let (h, k) = existing (c ∷ parent) t s e in
      attempted-IsKept (c ∷ parent) (fs.create_dir (c ∷ parent) s).0 _ _ h k

  checked-IsKept : (i : Inspected) (s : fs.State) → IsKept (checked fs false i s)
  unfolding checked
  checked-IsKept (found directory) s = refl
  checked-IsKept (found symlink) s = tt
  checked-IsKept (found socket) s = tt
  checked-IsKept (found regular) s = tt
  checked-IsKept (found special) s = tt
  checked-IsKept missing s = tt
  checked-IsKept unreadable s = tt

  inspect_parent-IsKept :
      (parent : FilePath) (r : Result SocketError Bool × fs.State)
      → IsKept r
      → IsKept (inspect_parent fs parent r)
  unfolding inspect_parent
  inspect_parent-IsKept parent (ok b, s) h = rw h (checked-IsKept (fs.symlink_metadata parent s) s)
  inspect_parent-IsKept parent (err e, s) h = tt

  returning-IsKept : (r : Result SocketError (Unit {0}) × fs.State) → IsKept (returning fs false r)
  unfolding returning
  returning-IsKept (ok _, s) = refl
  returning-IsKept (err e, s) = tt

  cleared-IsKept :
      (path : FilePath) (r : Result SocketError Bool × fs.State)
      → IsKept r
      → IsKept (cleared fs path r)
  unfolding cleared
  cleared-IsKept path (ok b, s) h = rw h (returning-IsKept (remove_existing_socket_path fs path s))
  cleared-IsKept path (err e, s) h = tt

  -- On a file system that creates no directory where an entry is: where the parent of the path is
  -- there, preparing the path never reports it as created.
  pub prepare_socket_path-IsKept :
      (existing : KeepsExisting fs) (c : ℕ) (parent : FilePath) (t : FileType) (s : fs.State)
      → fs.symlink_metadata parent s ≡ found t
      → IsKept (prepare_socket_path fs (c ∷ parent) s)
  unfolding prepare_socket_path
  prepare_socket_path-IsKept existing c parent t s e =
      cleared-IsKept (c ∷ parent) (ensure_socket_parent_dir fs parent s) (
        inspect_parent-IsKept parent (create_directory_if_missing fs parent s)
          (create_directory-IsKept existing parent t s e))
