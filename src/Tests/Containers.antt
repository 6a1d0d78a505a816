-- ===== src/Tests/Containers.antt =====
-- The theorems on the commands of the plugin, on its pods and on their namespaces at a concrete node.
use ohno.Common.{◌≡◌, ◌≢◌, ◌↔◌, ◌⊎◌, refl, true, false, none, some, [], ◌∷◌, if◌then◌else◌}
use ohno.Common.Bytes.{Bytes, codes, empty, eqb, eqb_iff}
use ohno.Common.Exec.{ok, fault, cni_error, Returns, Throws}
use ohno.Etcd.Client.{Items, At}
use ohno.Net.Nic.Entries.Table.{Table}
use ohno.Storage.{get_single_pod_key}
use ohno.Storage.Keys.{key_of, single_pod}
use ohno.Cni.{World, Pod, KubeNode}
use ohno.Net.Nic.{simple_netns}
use ohno.Registry.{find}
use ohno.Backend.Center.{NodeFacts, get_node_info}
use ohno.Cni.Restore.{parse_config, plugin_name, new_node, new_pod}
use ohno.Cni.Restore.Config.{IsUsable, parse_config_lem}
use ohno.Cni.Nodes.{get_kubernetes_pod}
use ohno.Cni.Nodes.Lookup.{with_pod, get_kubernetes_pod_lem}
use ohno.Cni.Interfaces.{claim_netns}
use ohno.Cni.Interfaces.Claim.{claim_netns-taken}
use ohno.Cni.Commands.{del}
use ohno.Cni.Commands.Quiet.{facts_of, del-unknown}
use ohno.Cni.Holds.{Holds}
use ohno.Tests.Values.{lists-EtcdContract, lists-At, literal-IsName}
use ohno.Tests.Interfaces.{no_routes}
use ohno.Tests.Plugin.{
  parts, config, fresh, fresh_world, node_shell, node, pod, dev, world, plugin, nothing,
  node-IsName, pod-IsName,
}

-- The configuration is accepted.
parse_config_lem_example :
    (let r = parse_config config world in
      (r.1.cni.conf ≡ config)
      × (r.1.etcd ≡ world.etcd)
      × (r.1.kernel ≡ world.kernel)
      × (config.type ≢ plugin_name → r.0 ≡ ok tt)
      × (config.type ≡ plugin_name
          → ((r.0 ≡ ok tt) ↔ IsUsable config)
            × ((r.0 ≡ ok tt) ⊎ (r.0 ≡ fault (cni_error 7)))
            × (r.0 ≡ ok tt → r.1.cni.ipam_mode ≡ config.ipam.mode)))
parse_config_lem_example = parse_config_lem config world

abbrev one_pod : KubeNode
one_pod = record new_node { name = node; netns = (codes "pod2", new_pod (codes "pod2")) ∷ [] }

abbrev two_nodes : World Items Table
two_nodes = record world {
  cni = record plugin { cluster = (node, one_pod) ∷ (codes "n2", new_node) ∷ [] };
}

two_nodes-node : find node two_nodes.cni.cluster ≡ some one_pod
unfolding find eqb
two_nodes-node = refl

node-ne-other : node ≢ codes "n2"
unfolding eqb
node-ne-other e = cc ((eqb_iff node (codes "n2")).1 e)

get_kubernetes_pod_lem_example :
    (let r = get_kubernetes_pod node pod true two_nodes in
      (find (codes "n2") r.1.cni.cluster ≡ find (codes "n2") two_nodes.cni.cluster)
      × ((p : Pod)
          → find pod one_pod.netns ≡ some p
          → (r.0 ≡ ok tt) × (find node r.1.cni.cluster ≡ some one_pod))
      × (find pod one_pod.netns ≡ none
          → true ≡ true
          → (r.0 ≡ ok tt) × (find node r.1.cni.cluster ≡ some (with_pod one_pod pod)))
      × (find pod one_pod.netns ≡ none
          → true ≡ false
          → (r.0 ≡ fault (cni_error 7)) × (find node r.1.cni.cluster ≡ some one_pod)))
get_kubernetes_pod_lem_example =
    get_kubernetes_pod_lem node (codes "n2") pod true two_nodes one_pod two_nodes-node (λ e. cc)
      node-ne-other

-- The namespace `blue` belongs to another container.
abbrev owned : Items
owned k = if eqb k (key_of (single_pod node (codes "blue"))) then codes "pod2" ∷ [] else []

abbrev owned_world : World Items Table
owned_world = record world { etcd = owned }

abbrev space : Bytes
space = codes "/var/run/netns/blue"

space_simple : simple_netns space ≡ ok (codes "blue")
unfolding simple_netns
space_simple = refl

owned-blue : owned (key_of (single_pod node (codes "blue"))) ≡ codes "pod2" ∷ []
unfolding eqb get_single_pod_key
owned-blue = refl

other-ne-pod : codes "pod2" ≢ pod
unfolding eqb
other-ne-pod e = cc ((eqb_iff (codes "pod2") pod).1 e)

claim_netns-taken_example :
    Throws
      (claim_netns parts pod space owned_world)
      (cni_error 7)
      (Holds lists-EtcdContract plugin owned)
claim_netns-taken_example =
    claim_netns-taken parts lists-EtcdContract space (codes "blue") pod (λ e. cc) space_simple
      (literal-IsName b'b' (codes "lue") refl) pod-IsName (codes "pod2") owned owned_world
      node-IsName (λ e. cc) other-ne-pod owned-blue (lists-At owned)

abbrev facts : NodeFacts
facts = record {
  node_name = node;
  underlay_dev = codes "ens3";
  underlay_addr = codes "192.168.1.5/24";
}

facts_told : (get_node_info node_shell (facts_of fresh) no_routes).0 ≡ ok (true, facts)
unfolding get_node_info eqb empty
facts_told = refl

del-unknown_example :
    Returns
      (del parts pod dev fresh_world)
      tt
      (λ u. At lists-EtcdContract nothing u.etcd × (u.cni.cluster ≡ []))
del-unknown_example =
    del-unknown parts lists-EtcdContract pod dev facts nothing fresh_world (λ e. cc) (λ e. cc)
      facts_told node-IsName (λ e. cc) (λ e. cc) refl (lists-At nothing)
