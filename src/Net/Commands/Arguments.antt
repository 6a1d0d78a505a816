-- ===== src/Net/Commands/Arguments.antt =====
-- src/net/netlink/netlink_ip_cmd.cc: the arguments of the commands, and what their outputs are taken for.
use ohno.Common.{◌≡◌, ◌≢◌, refl, ap, ◌∙◌, List, [], ◌∷◌, ◌++◌, All}
use ohno.Common.Bytes.{Bytes, codes, empty, empty_ne}
use ohno.Helper.{split}
use ohno.Helper.Split.{join, Lacks, EndsFull, split-join}
use ohno.Net.Commands.{add_netns, words}

-- A word of a command line.
abbrev pub IsArgument : Bytes → Type 0
IsArgument x = (x ≢ []) × Lacks 32 x

words-join : (xs : List Bytes) → words xs ≡ join xs 32
unfolding words join
words-join [] = refl
words-join (x ∷ []) = refl
words-join (x ∷ y ∷ r) = ap (λ s. x ++ b' ' ∷ s) (words-join (y ∷ r))

all_lack : (xs : List Bytes) → All IsArgument xs → All (Lacks 32) xs
all_lack [] h = tt
all_lack (x ∷ xs) h = (h.0.1, all_lack xs h.1)

ends_full : (xs : List Bytes) → All IsArgument xs → EndsFull xs
ends_full [] h = tt
ends_full (x ∷ []) h = h.0.0
ends_full (x ∷ y ∷ r) h = ends_full (y ∷ r) h.1

ip-Lacks_space : Lacks 32 (codes "ip")
ip-Lacks_space = ((λ e. cc), ((λ e. cc), tt))

netns-Lacks_space : Lacks 32 (codes "netns")
netns-Lacks_space = ((λ e. cc), ((λ e. cc), ((λ e. cc), ((λ e. cc), ((λ e. cc), tt)))))

exec-Lacks_space : Lacks 32 (codes "exec")
exec-Lacks_space = ((λ e. cc), ((λ e. cc), ((λ e. cc), ((λ e. cc), tt))))

-- For arguments that are not empty and hold no space, the first of which is there: the command of
-- these arguments is split into them again, and in a namespace with such a name into `ip`, `netns`,
-- `exec`, the name, and them.
pub split-add_netns :
    (x : Bytes) (xs : List Bytes) (netns : Bytes)
    → All IsArgument (x ∷ xs)
    → IsArgument netns
    → (split (add_netns (words (x ∷ xs)) []) 32 ≡ x ∷ xs)
      × (split (add_netns (words (x ∷ xs)) netns) 32
          ≡ codes "ip" ∷ codes "netns" ∷ codes "exec" ∷ netns ∷ x ∷ xs)
unfolding add_netns empty words
split-add_netns x xs netns h hn =
    let all = x ∷ xs in
    let full = codes "ip" ∷ codes "netns" ∷ codes "exec" ∷ netns ∷ x ∷ xs in
    let spelled : add_netns (words all) netns ≡ words full = rw (empty_ne netns hn.0) refl in
    (
      ap (λ s. split s 32) (words-join all) ∙ split-join 32 all (all_lack all h) (ends_full all h),
      ap (λ s. split s 32) (spelled ∙ words-join full)
          ∙ split-join 32 full
              ((ip-Lacks_space, (netns-Lacks_space, (exec-Lacks_space, (hn.1, all_lack all h)))))
              (ends_full all h),
    )
