-- ===== src/Model/Keys.antt =====
-- The derived equality of instance keys (src/model.rs), and that it is equality.
use opencode_beacon.Prelude.{
  String, Bool, true, false, Option, none, some, ◌≡◌, ◌↔◌, ◌&&◌, ◌==◌, eqb, eq_iff, arith,
}
use opencode_beacon.Prelude.Table.{Key}
use opencode_beacon.Model.{
  SocketAddr, v4, v6, InstanceSource, linux_procfs, managed_service, InstanceKey,
}

unfoldable pub socket_eq : SocketAddr → SocketAddr → Bool
socket_eq (v4 a b c d p) (v4 a' b' c' d' p') =
    eqb a a' && eqb b b' && eqb c c' && eqb d d' && eqb p p'
socket_eq (v6 a p f s) (v6 a' p' f' s') = eqb a a' && eqb p p' && eqb f f' && eqb s s'
socket_eq (v4 a b c d p) (v6 a' p' f' s') = false
socket_eq (v6 a p f s) (v4 a' b' c' d' p') = false

pub socket_eq_iff : (s t : SocketAddr) → (socket_eq s t ≡ true) ↔ (s ≡ t)
unfolding socket_eq
socket_eq_iff (v4 a b c d p) (v4 a' b' c' d' p') = ground arith
socket_eq_iff (v6 a p f s) (v6 a' p' f' s') = ground arith
socket_eq_iff (v4 a b c d p) (v6 a' p' f' s') = ground arith
socket_eq_iff (v6 a p f s) (v4 a' b' c' d' p') = ground arith

version_eq : Option String → Option String → Bool
version_eq none none = true
version_eq (some a) (some b) = a == b
version_eq none (some b) = false
version_eq (some a) none = false

version_eq_iff : (a b : Option String) → (version_eq a b ≡ true) ↔ (a ≡ b)
unfolding version_eq
version_eq_iff none none = ground arith
version_eq_iff (some a) (some b) = ground (arith, eq_iff a b)
version_eq_iff none (some b) = ground arith
version_eq_iff (some a) none = ground arith

unfoldable pub source_eq : InstanceSource → InstanceSource → Bool
unfolding version_eq
source_eq linux_procfs linux_procfs = true
source_eq (managed_service a v) (managed_service b w) = a == b && version_eq v w
source_eq linux_procfs (managed_service b w) = false
source_eq (managed_service a v) linux_procfs = false

pub source_eq_iff : (s t : InstanceSource) → (source_eq s t ≡ true) ↔ (s ≡ t)
unfolding source_eq
source_eq_iff linux_procfs linux_procfs = ground arith
source_eq_iff (managed_service a v) (managed_service b w) =
    ground (arith, eq_iff a b, version_eq_iff v w)
source_eq_iff linux_procfs (managed_service b w) = ground arith
source_eq_iff (managed_service a v) linux_procfs = ground arith

-- `==` on the keys
unfoldable pub instance_eq : InstanceKey → InstanceKey → Bool
unfolding socket_eq source_eq
instance_eq a b =
    eqb a.network_namespace_inode b.network_namespace_inode
    && eqb a.socket_inode b.socket_inode
    && socket_eq a.listener b.listener
    && eqb a.pid b.pid
    && source_eq a.source b.source

pub instance_eq_iff : (a b : InstanceKey) → (instance_eq a b ≡ true) ↔ (a ≡ b)
unfolding instance_eq
instance_eq_iff a b =
    ground (arith, socket_eq_iff a.listener b.listener, source_eq_iff a.source b.source)

abbrev pub instance_key : Key InstanceKey
instance_key = record { same = instance_eq; same_iff = instance_eq_iff }
