-- ===== src/Routing/FirstPacket/Examples.antt =====
-- The first-packet bridge at concrete events.
use rag_agent.Prelude.{◌≡◌, refl, [], ◌∷◌, ◌++◌}
use rag_agent.Routing.FirstPacket.{content, thinking, complete, new_bridge}
use rag_agent.Routing.FirstPacket.Delivery.{
  deliver_all, commit, commit_during, passed_on, commit_in_order, commit_overtaken,
}

commit_in_order_example :
    ((deliver_all (thinking "a" ∷ content "b" ∷ []) new_bridge).downstream ≡ [])
    × ((commit (deliver_all (thinking "a" ∷ content "b" ∷ []) new_bridge)).buffer ≡ [])
    × ((deliver_all
          (complete ∷ [])
          (commit (deliver_all (thinking "a" ∷ content "b" ∷ []) new_bridge))).downstream
        ≡ passed_on (thinking "a" ∷ content "b" ∷ []) ++ complete ∷ [])
commit_in_order_example = commit_in_order (thinking "a") (content "b" ∷ []) (complete ∷ [])

-- "b" and "c" come before the commit, "d" while the action of "b" runs
commit_overtaken_example :
    (commit_during 0
      (content "d" ∷ [])
      (deliver_all (content "b" ∷ content "c" ∷ []) new_bridge)).downstream
    ≡ content "b" ∷ content "d" ∷ content "c" ∷ []
commit_overtaken_example =
    commit_overtaken 0 (content "b") (content "c" ∷ []) (content "d" ∷ []) (content "b")
      (content "c" ∷ []) refl
