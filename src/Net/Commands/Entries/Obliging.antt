-- ===== src/Net/Commands/Entries/Obliging.antt =====
-- src/net/netlink/netlink_ip_cmd.cc: what is assumed of a `NetlinkIf` holds of this one, over a shell in which
-- every command succeeds and prints something.
use ohno.Common.{◌≡◌, ◌≢◌, refl, Bool, true, []}
use ohno.Common.Bytes.{Bytes, empty_ne}
use ohno.Common.Exec.{Exec, Outcome, ok, ◌>>◌}
use ohno.Etcd.Shell.{Shell}
use ohno.Net.Commands.{
  add_netns, given, execute_command, output_has, output_any, link_exist, bridge_create,
  vxlan_create, vrf_create,
}
use ohno.Net.Commands.Entries.{
  netlink_ip_cmd, address_is_exist, address_set_entry, route_is_exist, route_set_entry,
}
use ohno.Net.Nic.{has}
use ohno.Net.Nic.Entries.Takes.{Takes}
use ohno.Net.Nic.Entries.Table.{RouteContract}
use ohno.Net.Device.Setup.{LinkContract}

-- It succeeds and prints something.
pub record Obliges {K : Type 0} (shell : Shell K) : Type 0 where
  pub succeeds :
      (command : Bytes) (k : K)
      → (out : Bytes) × (out ≢ []) × ((shell.execute command k).0 ≡ ok (true, out))

module _ {K : Type 0} {A : Type 0} where
  -- Behind an argument that is there.
  behind :
      (text : Bytes) (m : Exec K A) (k : K) {o : Outcome A}
      → text ≢ []
      → (m k).0 ≡ o
      → ((given text >> m) k).0 ≡ o
  behind text m k full e = rw (empty_ne text full) e

module _ {K : Type 0} {shell : Shell K} (o : Obliges shell) where
  executed : (command netns : Bytes) (k : K) → (execute_command shell command netns k).0 ≡ ok true
  unfolding execute_command
  executed command netns k =
      let (out, full, e) = o.succeeds (add_netns command netns) k in rw e refl

  printed : (command netns : Bytes) (k : K) → (output_any shell command netns k).0 ≡ ok true
  unfolding output_any
  printed command netns k =
      let (out, full, e) = o.succeeds (add_netns command netns) k in rw (e, empty_ne out full) refl

  searched :
      (text command netns : Bytes) (k : K)
      → (found : Bool) × ((output_has shell text command netns k).0 ≡ ok found)
  unfolding output_has
  searched text command netns k =
      let (out, full, e) = o.succeeds (add_netns command netns) k in (has text out, rw e refl)

  pub netlink_ip_cmd-Takes : Takes (netlink_ip_cmd shell)
  unfolding address_is_exist address_set_entry route_is_exist route_set_entry
  netlink_ip_cmd-Takes = record {
    asks_address = λ name addr netns k named full.
        let (found, e) = searched addr _ netns k in
        (found, behind name _ k named (behind addr _ k full e));
    sets_address = λ name addr netns k named full.
        behind name _ k named (behind addr _ k full (executed _ netns k));
    asks_route = λ dst via dev netns k full. (true, behind via _ k full (printed _ netns k));
    sets_route = λ dst via dev netns flags k full. behind via _ k full (executed _ netns k);
  }

  pub netlink_ip_cmd-RouteContract : RouteContract (netlink_ip_cmd shell)
  unfolding route_is_exist route_set_entry
  netlink_ip_cmd-RouteContract = record {
    table = λ k r netns. true;
    asks = λ r netns k full. record {
      result = behind r.via _ k full (printed _ netns k);
      after = λ q other h. refl;
    };
    adds = λ r netns flags k full. (
      true,
      record {
        result = behind r.via _ k full (executed _ netns k);
        after = ((λ q other h. refl), λ e. refl);
      },
    );
  }

  pub netlink_ip_cmd-LinkContract : LinkContract (netlink_ip_cmd shell)
  unfolding link_exist bridge_create vxlan_create vrf_create
  netlink_ip_cmd-LinkContract = record {
    links = λ k name. true;
    asks =
        λ name k named. record { result = behind name _ k named (executed _ [] k); after = refl };
    bridges = λ name k named.
        (true, record { result = behind name _ k named (executed _ [] k); after = λ e. refl });
    vxlans = λ name addr dev k named full given_dev. (
      true,
      record {
        result =
            behind name _ k named
              (behind addr _ k full (behind dev _ k given_dev (executed _ [] k)));
        after = λ e. refl;
      },
    );
    vrfs = λ name table k named.
        (true, record { result = behind name _ k named (executed _ [] k); after = λ e. refl });
  }
