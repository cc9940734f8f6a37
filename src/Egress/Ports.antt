-- ===== src/Egress/Ports.antt =====
-- pepr/operator/controllers/istio/egress-ports.ts.
use uds_core.Prelude.{ℕ, Option, none, some, List, [], ◌∷◌, get_or}
use uds_core.Crd.Package.{RemoteProtocol}

abbrev pub get_allowed_ports : Option (List ℕ) → Option ℕ → Option (List ℕ)
get_allowed_ports (some (p ∷ ps)) port = some (p ∷ ps)
get_allowed_ports (some []) (some p) = some (p ∷ [])
get_allowed_ports (some []) none = none
get_allowed_ports none (some p) = some (p ∷ [])
get_allowed_ports none none = none

abbrev default_ports : RemoteProtocol → List ℕ
default_ports RemoteProtocol.http = 80 ∷ []
default_ports RemoteProtocol.tcp = 443 ∷ []
default_ports RemoteProtocol.tls = 443 ∷ []
default_ports RemoteProtocol.udp = 443 ∷ []

abbrev pub get_ports_for_host_allow : Option (List ℕ) → Option ℕ → RemoteProtocol → List ℕ
get_ports_for_host_allow ports port protocol =
    get_or (get_allowed_ports ports port) (default_ports protocol)
