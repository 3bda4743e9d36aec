-- ===== src/Tests/Next.antt =====
-- Runs of the search behind an identifier, and its theorems at concrete inputs.
use smithsnmp.Base.{◌*◌, ◌%◌, ◌^◌, ◌≡◌, refl, arith, [], ◌∷◌, length}
use smithsnmp.Oid.{oid_cover, oid_cmp}
use smithsnmp.Mib.Tree.Lookup.{node_at}
use smithsnmp.Mib.Next.{mib_tree_search_next}
use smithsnmp.Mib.Next.Candidates.{rounds, try_all, not_before, all_of}
use smithsnmp.Mib.Next.Within.{ends, mib_tree_search_next_within, mib_tree_search_next_ahead}
use smithsnmp.Mib.Next.Start.{ready}
use smithsnmp.Mib.Next.Ends.{mib_tree_search_next-IsOver}
use smithsnmp.Mib.Next.Part.{IsOver}
use smithsnmp.Snmp.Access.{mib_getnext, authenticate, access_get}
use smithsnmp.Snmp.Access.Ends.{rights}
use smithsnmp.Snmp.Access.Behind.{Behind, mib_getnext-Behind}
use smithsnmp.Snmp.Request.{snmp_bulkget}
use smithsnmp.Snmp.Request.Answers.{Serves}
use smithsnmp.Snmp.Request.Bindings.{snmp_bulkget-Serves}
use smithsnmp.Tests.Requests.{
  counting_lua, small_node, small_tree, small_tree-IsWellFormed, small_view, both_community,
  v1_sender, empty_res, two_bindings, empty_datagram,
}

mib_tree_search_next_within_example :
    mib_tree_search_next counting_lua small_view (1 ∷ 3 ∷ []) 20 small_tree empty_res 0
    ≡ try_all counting_lua small_view
        (not_before small_node (1 ∷ []) (3 ∷ []))
        (ends counting_lua small_view (1 ∷ 3 ∷ []))
        (ready empty_res (1 ∷ 3 ∷ []) small_node)
        0
unfolding node_at rounds
mib_tree_search_next_within_example =
    mib_tree_search_next_within counting_lua small_view small_tree small_node
      small_tree-IsWellFormed refl (omega arith) 20 empty_res 0 (omega arith) (3 ∷ []) (omega arith)

mib_tree_search_next_ahead_example :
    mib_tree_search_next counting_lua small_view (0 ∷ 5 ∷ []) 20 small_tree empty_res 0
    ≡ try_all counting_lua small_view
        (all_of small_node (1 ∷ []))
        (ends counting_lua small_view (0 ∷ 5 ∷ []))
        (ready empty_res (1 ∷ []) small_node)
        0
unfolding node_at rounds oid_cover oid_cmp
mib_tree_search_next_ahead_example =
    mib_tree_search_next_ahead counting_lua small_view small_tree small_node small_tree-IsWellFormed
      refl (omega arith) 20 empty_res 0 (omega arith) (0 ∷ 5 ∷ []) (λ e. cc) refl

mib_tree_search_next-IsOver_example :
    IsOver (mib_tree_search_next counting_lua small_view (2 ∷ []) 20 small_tree empty_res 0)
unfolding rounds
mib_tree_search_next-IsOver_example =
    mib_tree_search_next-IsOver counting_lua small_view (2 ∷ []) 20 small_tree
      small_tree-IsWellFormed (omega arith) empty_res 0

mib_getnext-Behind_example :
    Behind counting_lua small_tree 20
      (1 ∷ [])
      (rights (both_community ∷ []) v1_sender).ro_views
      (record empty_res {
        err_stat =
            authenticate v1_sender (access_get (both_community ∷ []) v1_sender empty_res.err_stat);
      })
      0
      (mib_getnext counting_lua small_tree 20 2
        (both_community ∷ [])
        v1_sender
        (1 ∷ [])
        empty_res
        0)
unfolding rights
mib_getnext-Behind_example =
    mib_getnext-Behind counting_lua small_tree 20 2 (both_community ∷ []) v1_sender (1 ∷ [])
      empty_res 0 (tt, tt) (omega arith)

-- Three repetitions.
snmp_bulkget-Serves_example :
    Serves
      (λ os. length os ≡ 3 % 2 ^ 32 * 2)
      0
      empty_datagram
      (snmp_bulkget counting_lua small_tree 2
        (both_community ∷ [])
        v1_sender
        20
        two_bindings
        (record empty_datagram { err_idx = 3 })
        0)
unfolding rights rounds
snmp_bulkget-Serves_example =
    snmp_bulkget-Serves counting_lua small_tree 2 (both_community ∷ []) v1_sender 20 two_bindings
      (record empty_datagram { err_idx = 3 }) 0 small_tree-IsWellFormed (omega arith) (tt, tt)
      (omega arith)
