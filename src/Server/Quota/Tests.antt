-- ===== src/Server/Quota/Tests.antt =====
-- Runs of the quota for approval requests.
use tacacs_plus_go.Base.{List, [], arith, bytes_eq, codes, get, put, refl, ◌∷◌, ◌≡◌, ◌≤◌}
use tacacs_plus_go.Server.Quota.{allow_approval_create, allow_user, entries_of, fresh, is_known}
use tacacs_plus_go.Server.Quota.Sliding.{Create, act, granted_within, run, run-IsLimited}

abbrev creates : List Create
creates = (codes "ann", 5) ∷ (codes "bob", 5) ∷ (codes "ann", 9) ∷ []

-- Both of ann's requests are granted.
test_granted :
    (run (λ name. name) (codes "ann") creates (record { quota = []; times = [] })).times
    ≡ 9 ∷ 5 ∷ []
unfolding run act allow_approval_create allow_user entries_of is_known fresh get put bytes_eq
test_granted = refl

run-IsLimited_example :
    granted_within 9
      (run (λ name. name) (codes "ann") creates (record { quota = []; times = [] })).times
    ≤ 20
run-IsLimited_example =
    run-IsLimited (λ name. name) (codes "ann") 5 9 creates
      (omega arith, (omega arith, (omega arith, tt))) (omega arith)
