-- ===== src/Net/Commands/Entries/Suffix.antt =====
-- src/net/netlink/netlink_ip_cmd.cc: an address is searched as a text in the output.
use ohno.Common.{◌≡◌, ◌≢◌, ap, ◌∙◌, true, [], ◌∷◌, ◌++◌, append_assoc}
use ohno.Common.Bytes.{Bytes, codes, empty_ne}
use ohno.Common.Exec.{ok}
use ohno.Net.Nic.{has, has-inside}
use ohno.Etcd.Shell.{Shell}
use ohno.Net.Commands.{add_netns, words, output_has}
use ohno.Net.Commands.Entries.{address_is_exist}

regroup : (a b c d : Bytes) → a ++ (b ++ c) ++ d ≡ (a ++ b) ++ c ++ d
regroup a b c d = simp append_assoc

-- For every device name and address that are not empty: where the shell answers `ip addr show` with
-- an output that holds a text of which the address is only the end, `addressIsExist` answers that
-- the address is there.
pub address_is_exist-suffix :
    {K : Type 0} (shell : Shell K) (name addr netns before longer after : Bytes) (k : K)
    → name ≢ []
    → addr ≢ []
    → (shell.execute (add_netns (words (codes "ip addr show dev" ∷ name ∷ [])) netns) k).0
      ≡ ok (true, before ++ (longer ++ addr) ++ after)
    → (address_is_exist shell name addr netns k).0 ≡ ok true
unfolding address_is_exist output_has
address_is_exist-suffix shell name addr netns before longer after k hn ha said =
    rw (empty_ne name hn, empty_ne addr ha, said)
      (ap ok (
        ap (has addr) (regroup before longer addr after)
        ∙ has-inside addr (before ++ longer) after))
