-- ===== src/Socket/Modes.antt =====
-- Whose permissions are set.
use iec104bridge.Base.{ℕ, ◌≡◌, refl, Bool, true, false, ◌∷◌}
use iec104bridge.Base.Result.{Result, ok, err}
use iec104bridge.Socket.{
  FilePath, FileType, found, FileSystem, SocketError, listened, permitted, then_path, prepared,
  prepare_socket_path, set_socket_permissions, bind,
}
use iec104bridge.Socket.Prepared.{KeepsExisting, IsKept, prepare_socket_path-IsKept}

module _ (fs : FileSystem) (set : FilePath → ℕ → fs.State → Bool × fs.State) where
  -- The file system with another way to set permissions.
  abbrev pub resetting : FileSystem
  resetting = record fs { set_permissions = set }

  module _ (c : ℕ) (parent : FilePath)
      (same_at_path : (mode : ℕ) (s : fs.State)
        → set (c ∷ parent) mode s ≡ fs.set_permissions (c ∷ parent) mode s) where
    permitted-resetting : (r : Bool × fs.State) → permitted resetting r ≡ permitted fs r
    unfolding permitted
    permitted-resetting (true, s) = refl
    permitted-resetting (false, s) = refl

    listened-resetting :
        (r : Bool × fs.State)
        → listened resetting (c ∷ parent) false r ≡ listened fs (c ∷ parent) false r
    unfolding listened set_socket_permissions then_path
    listened-resetting (true, s) =
        rw (same_at_path 432 s) (permitted-resetting (fs.set_permissions (c ∷ parent) 432 s))
    listened-resetting (false, s) = refl

    prepared-resetting :
        (r : Result SocketError Bool × fs.State)
        → IsKept fs r
        → prepared resetting (c ∷ parent) r ≡ prepared fs (c ∷ parent) r
    unfolding prepared
    prepared-resetting (ok b, s) h = rw h (listened-resetting (fs.bind_listener (c ∷ parent) s))
    prepared-resetting (err e, s) h = refl

    -- On a file system that creates no directory where an entry is: where the parent of the path is
    -- there already, opening the socket sets no permissions but the path's own; if they are set in
    -- another way everywhere else, nothing changes.
    pub bind-resetting :
        (existing : KeepsExisting fs) (t : FileType) (s : fs.State)
        → fs.symlink_metadata parent s ≡ found t
        → bind resetting (c ∷ parent) s ≡ bind fs (c ∷ parent) s
    unfolding bind
    bind-resetting existing t s e =
        prepared-resetting (prepare_socket_path fs (c ∷ parent) s)
          (prepare_socket_path-IsKept fs existing c parent t s e)
