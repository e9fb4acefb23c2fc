-- ===== src/Aaa/Command.antt =====
-- pkg/client/tac_plus/handler.go: how the command line is put together from a packet's arguments.
use tacacs_plus_go.Aaa.Users.{is_empty}
use tacacs_plus_go.Base.{
  Bool, List, Option, [], bytes_eq, codes, drop, if◌then◌else◌, leb, length, map, none, some, take,
  ℕ, ◌&&◌, ◌++◌, ◌+◌, ◌-◌, ◌==◌, ◌∷◌,
}
use mathlib.Core.Option

-- Lower case of an ASCII letter. strings.EqualFold also folds two letters beyond ASCII, to `k` and
-- `s`, and neither stands in a text that the code compares with.
unfoldable pub to_lower : ℕ → ℕ
to_lower c = if leb b'A' c && leb c b'Z' then c + 32 else c

unfoldable pub equal_fold : List ℕ → List ℕ → Bool
equal_fold s t = bytes_eq (map to_lower s) (map to_lower t)

-- strings.IndexByte(arg, '=') cuts an argument into key and value; `none` where there is no '='.
unfoldable pub cut_at_eq : List ℕ → Option (List ℕ × List ℕ)
cut_at_eq [] = none
cut_at_eq (c ∷ s) =
    let rest = cut_at_eq s in
    if c == b'=' then some ([], s) else Option.map (λ kv. (c ∷ kv.0, kv.1)) rest

-- One round of the loop over a.Arg: the command so far and the arguments so far.
unfoldable pub add_arg : List ℕ → List ℕ × List (List ℕ) → List ℕ × List (List ℕ)
add_arg arg (cmd, add_args) =
    if equal_fold arg (codes "cmd*") then (cmd, add_args) else elim (cut_at_eq arg) [
      | none ↦ (cmd, add_args)
      | some (key, val) ↦
          if is_empty key
          then (cmd, add_args)
          else if equal_fold key (codes "cmd")
          then (val, add_args)
          else if equal_fold key (codes "cmd-arg")
          then (if bytes_eq val (codes "<cr>")
              then (cmd, add_args)
              else (cmd, add_args ++ (val ∷ [])))
          else (cmd, add_args)
    ]

unfoldable pub add_all : List (List ℕ) → List ℕ × List (List ℕ) → List ℕ × List (List ℕ)
add_all [] acc = acc
add_all (arg ∷ args) acc = add_all args (add_arg arg acc)

-- for _, v := range addArgs { b = append(b, ' '); b = append(b, v...) }
unfoldable pub append_args : List ℕ → List (List ℕ) → List ℕ
append_args b [] = b
append_args b (v ∷ add_args) = append_args (b ++ (b' ' ∷ v)) add_args

-- The command line of an authorization request; empty where no `cmd=` names a command.
unfoldable pub author_cmd : List (List ℕ) → List ℕ
author_cmd args =
    let (cmd, add_args) = add_all args ([], []) in
    if is_empty cmd then [] else append_args cmd add_args

-- The first `cmd=` argument of an accounting request.
unfoldable pub find_cmd : List (List ℕ) → List ℕ
find_cmd [] = []
find_cmd (arg ∷ args) =
    let rest = find_cmd args in
    if leb 4 (length arg) && equal_fold (take 4 arg) (codes "cmd=") then drop 4 arg else rest

-- strings.TrimSuffix
unfoldable pub trim_suffix : List ℕ → List ℕ → List ℕ
trim_suffix s suffix =
    if leb (length suffix) (length s) && bytes_eq (drop (length s - length suffix) s) suffix
    then take (length s - length suffix) s
    else s

unfoldable pub acct_cmd : List (List ℕ) → List ℕ
acct_cmd args = trim_suffix (find_cmd args) (codes " <cr>")
