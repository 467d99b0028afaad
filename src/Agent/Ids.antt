-- ===== src/Agent/Ids.antt =====
-- teaomdv/teaomdv.cc, "Broadcast ID Management Functions": the requests that were heard recently.
pub mod Routes
use ns2_te_aomdv.Base.{ℕ, Bool, Option, List, [], ◌∷◌, find, keep, any, not, Double, ◌⊕◌, ◌≼◌}
use ns2_te_aomdv.Agent.State.{Agent, BroadcastId, Env, has_id}

module _ {D : Type 0} where
  unfoldable pub id_lookup : ℕ → ℕ → Agent D → Bool
  id_lookup id bid s = any (has_id id bid) s.bihead

  unfoldable pub id_get : ℕ → ℕ → Agent D → Option (BroadcastId D)
  id_get id bid s = find (has_id id bid) s.bihead

module _ {D : Type 0} ⦃fl : Double D⦄ (env : Env D) where
  -- BCAST_ID_SAVE is 6.
  unfoldable pub id_insert : ℕ → ℕ → Agent D → Agent D
  id_insert id bid s = record s {
    bihead =
        record {
          src = id;
          id = bid;
          expire = env.now ⊕ fl.lit 6 1;
          count = 0;
          reverse_path_list = [];
          forward_path_list = [];
        }
        ∷ s.bihead;
  }

  abbrev pub is_current : BroadcastId D → Bool
  is_current b = not (b.expire ≼ env.now)

  unfoldable pub id_purge : Agent D → Agent D
  id_purge s = record s { bihead = keep is_current s.bihead }
