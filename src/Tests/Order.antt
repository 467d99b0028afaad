-- ===== src/Tests/Order.antt =====
-- The theorems on the rule by which routes change, at a route over two paths.
use ns2_te_aomdv.Base.{ℕ, refl, none, arith, fixed_double}
use ns2_te_aomdv.Entry.{Entry}
use ns2_te_aomdv.Agent.RecvRequest.{learn_reverse}
use ns2_te_aomdv.Agent.RecvRequest.Answer.{advertise}
use ns2_te_aomdv.Agent.RecvReply.{learn_forward}
use ns2_te_aomdv.Agent.Invariant.{Gives}
use ns2_te_aomdv.Agent.Order.{Follows, learn_reverse-Follows, learn_forward-Follows}
use ns2_te_aomdv.Agent.Order.Advertised.{IsAdvertised, stay-IsAdvertised}
use ns2_te_aomdv.Tests.Data.{request, reply, request_packet_from_4, test_env, two_paths}

-- The number of the request is higher.
learn_reverse-Follows_example :
    Gives
      (λ r. Follows test_env two_paths 8 1 4 5 r.1)
      (learn_reverse test_env 1 3 1 request_packet_from_4 request two_paths)
learn_reverse-Follows_example =
    learn_reverse-Follows test_env 1 3 1 request_packet_from_4 request two_paths

learn_forward-Follows_example :
    Gives
      (λ r.
        Follows test_env two_paths reply.rp_dst_seqno reply.rp_hop_count reply.rp_src
          reply.rp_first_hop r.1)
      (learn_forward test_env 3 1 none reply two_paths)
learn_forward-Follows_example = learn_forward-Follows test_env 3 1 none reply two_paths

-- The route, with the hops of its longer path advertised.
abbrev announced : Entry ℕ
announced = record two_paths { advertised_hops = 3 }

announced-IsAdvertised : IsAdvertised test_env announced
announced-IsAdvertised h = (omega arith, (omega arith, tt))

stay-IsAdvertised_example :
    Gives
      (λ r. IsAdvertised test_env r.1)
      (learn_reverse test_env 1 3 1 request_packet_from_4 request announced)
    × Gives (λ r. IsAdvertised test_env r.1) (learn_forward test_env 3 1 none reply announced)
    × IsAdvertised test_env (advertise test_env announced)
stay-IsAdvertised_example =
    stay-IsAdvertised test_env 1 3 1 request_packet_from_4 request none reply announced refl
      announced-IsAdvertised
