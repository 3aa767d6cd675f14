-- ===== src/System/Network.antt =====
-- internal/system/network.go: the interfaces that are up.
use kubeadapt_k8s_pulse.Prelude.{
  Bool, List, Option, [], if◌then◌else◌, none, some, ℕ, ◌%◌, ◌==◌, ◌∷◌,
}
use kubeadapt_k8s_pulse.Prelude.Text.{Text}

pub record NetworkInterface : Type 0 where
  pub index : ℕ
  pub name : Text
  pub flags : ℕ

-- iface.Flags & net.FlagUp, the lowest bit
abbrev pub is_up : ℕ → Bool
is_up flags = flags % 2 == 1

-- The loop over what net.Interfaces returns.
unfoldable pub up_interfaces : List NetworkInterface → List NetworkInterface
up_interfaces [] = []
up_interfaces (i ∷ is) = let rest = up_interfaces is in if is_up i.flags then i ∷ rest else rest

-- `none` is an error of net.Interfaces.
unfoldable pub get_network_interfaces :
    Option (List NetworkInterface) → Option (List NetworkInterface)
unfolding up_interfaces
get_network_interfaces none = none
get_network_interfaces (some ifaces) = some (up_interfaces ifaces)
