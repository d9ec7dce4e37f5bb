-- ===== src/Utils/Chain.antt =====
-- utils/utils_middleware.go: chains of unary interceptors. The result type `R` of a call is
-- arbitrary, so a call may change state; `Req` and `Call` are what a call is about.
use mathlib.Core.List.{foldr, foldr-append, reverse, reverse-cons}
use gocsi.Base.{List, [], ◌∷◌, ◌++◌, ◌≡◌, refl, ◌∙◌, ap}

module _ (Ctx Req R : Type 0) where
  abbrev pub Handler : Type 0
  Handler = Ctx → Req → R

module _ (Ctx Req Info R : Type 0) where
  abbrev pub Interceptor : Type 0
  Interceptor = Ctx → Req → Info → Handler Ctx Req R → R

-- A client's call has the method, the request, the reply, the connection and the options.
module _ (Ctx Call R : Type 0) where
  abbrev pub Invoker : Type 0
  Invoker = Ctx → Call → R

  abbrev pub ClientInterceptor : Type 0
  ClientInterceptor = Ctx → Call → Invoker → R

module _ {Ctx Req Info R : Type 0} where
  -- The closure `bc`: the next interceptor gets the same `info`.
  abbrev pub bc : Info → Interceptor Ctx Req Info R → Handler Ctx Req R → Handler Ctx Req R
  bc info cur nxt cur_ctx cur_req = cur cur_ctx cur_req info nxt

  -- The loop from the last interceptor down to the first: the list is given reversed.
  wrap : Info → List (Interceptor Ctx Req Info R) → Handler Ctx Req R → Handler Ctx Req R
  wrap info [] c = c
  wrap info (i ∷ is) c = wrap info is (bc info i c)

  -- `ChainUnaryServer`
  unfoldable pub chain_unary_server : List (Interceptor Ctx Req Info R) → Interceptor Ctx Req Info R
  unfolding wrap
  chain_unary_server [] ctx req info handler = handler ctx req
  chain_unary_server (i ∷ []) ctx req info handler = i ctx req info handler
  chain_unary_server (i ∷ j ∷ is) ctx req info handler =
      wrap info (reverse (i ∷ j ∷ is)) handler ctx req

  wrap-append :
      (info : Info) (is js : List (Interceptor Ctx Req Info R)) (h : Handler Ctx Req R)
      → wrap info (is ++ js) h ≡ wrap info js (wrap info is h)
  unfolding wrap
  wrap-append info [] js h = refl
  wrap-append info (i ∷ is) js h = wrap-append info is js (bc info i h)

  wrap_last :
      (info : Info) (is : List (Interceptor Ctx Req Info R)) (i : Interceptor Ctx Req Info R)
      (h : Handler Ctx Req R)
      → wrap info (is ++ i ∷ []) h ≡ bc info i (wrap info is h)
  unfolding wrap
  wrap_last info is i h = wrap-append info is (i ∷ []) h

  wrap-reverse :
      (info : Info) (is : List (Interceptor Ctx Req Info R)) (h : Handler Ctx Req R)
      → wrap info (reverse is) h ≡ foldr (bc info) h is
  wrap-reverse info [] h = unfold wrap in refl
  wrap-reverse info (i ∷ is) h =
      rw reverse-cons (wrap_last info (reverse is) i h ∙ ap (bc info i) (wrap-reverse info is h))

  -- A chain of server interceptors calls them from left to right: each gets as its handler the chain
  -- of those behind it, and the last one the given handler.
  pub chain_unary_server-foldr :
      (is : List (Interceptor Ctx Req Info R)) (ctx : Ctx) (req : Req) (info : Info)
      (h : Handler Ctx Req R)
      → chain_unary_server is ctx req info h ≡ foldr (bc info) h is ctx req
  unfolding chain_unary_server
  chain_unary_server-foldr [] ctx req info h = refl
  chain_unary_server-foldr (i ∷ []) ctx req info h = refl
  chain_unary_server-foldr (i ∷ j ∷ is) ctx req info h =
      ap (λ (f : Handler Ctx Req R). f ctx req) (wrap-reverse info (i ∷ j ∷ is) h)

  -- To chain two lists of interceptors is to chain the first around the chain of the second.
  pub chain_unary_server-append :
      (is js : List (Interceptor Ctx Req Info R)) (ctx : Ctx) (req : Req) (info : Info)
      (h : Handler Ctx Req R)
      → chain_unary_server (is ++ js) ctx req info h
        ≡ chain_unary_server is ctx req info (λ c r. chain_unary_server js c r info h)
  chain_unary_server-append is js ctx req info h =
      simp chain_unary_server-foldr
        (ap (λ (f : Handler Ctx Req R). f ctx req) (foldr-append (bc info) h is js))

module _ {Ctx Call R : Type 0} where
  abbrev bc_client : ClientInterceptor Ctx Call R → Invoker Ctx Call R → Invoker Ctx Call R
  bc_client cur nxt cur_ctx cur_call = cur cur_ctx cur_call nxt

  wrap_client : List (ClientInterceptor Ctx Call R) → Invoker Ctx Call R → Invoker Ctx Call R
  wrap_client [] c = c
  wrap_client (i ∷ is) c = wrap_client is (bc_client i c)

  -- `ChainUnaryClient`
  unfoldable pub chain_unary_client :
      List (ClientInterceptor Ctx Call R) → ClientInterceptor Ctx Call R
  unfolding wrap_client
  chain_unary_client [] ctx call invoker = invoker ctx call
  chain_unary_client (i ∷ []) ctx call invoker = i ctx call invoker
  chain_unary_client (i ∷ j ∷ is) ctx call invoker =
      wrap_client (reverse (i ∷ j ∷ is)) invoker ctx call

  wrap_client-append :
      (is js : List (ClientInterceptor Ctx Call R)) (k : Invoker Ctx Call R)
      → wrap_client (is ++ js) k ≡ wrap_client js (wrap_client is k)
  unfolding wrap_client
  wrap_client-append [] js k = refl
  wrap_client-append (i ∷ is) js k = wrap_client-append is js (bc_client i k)

  wrap_client_last :
      (is : List (ClientInterceptor Ctx Call R)) (i : ClientInterceptor Ctx Call R)
      (k : Invoker Ctx Call R)
      → wrap_client (is ++ i ∷ []) k ≡ bc_client i (wrap_client is k)
  unfolding wrap_client
  wrap_client_last is i k = wrap_client-append is (i ∷ []) k

  wrap_client-reverse :
      (is : List (ClientInterceptor Ctx Call R)) (k : Invoker Ctx Call R)
      → wrap_client (reverse is) k ≡ foldr bc_client k is
  wrap_client-reverse [] k = unfold wrap_client in refl
  wrap_client-reverse (i ∷ is) k =
      rw reverse-cons
        (wrap_client_last (reverse is) i k ∙ ap (bc_client i) (wrap_client-reverse is k))

  chain_unary_client-foldr :
      (is : List (ClientInterceptor Ctx Call R)) (ctx : Ctx) (call : Call) (k : Invoker Ctx Call R)
      → chain_unary_client is ctx call k ≡ foldr bc_client k is ctx call
  unfolding chain_unary_client
  chain_unary_client-foldr [] ctx call k = refl
  chain_unary_client-foldr (i ∷ []) ctx call k = refl
  chain_unary_client-foldr (i ∷ j ∷ is) ctx call k =
      ap (λ (f : Invoker Ctx Call R). f ctx call) (wrap_client-reverse (i ∷ j ∷ is) k)

  -- To chain two lists of client interceptors is to chain the first around the chain of the second.
  pub chain_unary_client-append :
      (is js : List (ClientInterceptor Ctx Call R)) (ctx : Ctx) (call : Call)
      (k : Invoker Ctx Call R)
      → chain_unary_client (is ++ js) ctx call k
        ≡ chain_unary_client is ctx call (λ c l. chain_unary_client js c l k)
  chain_unary_client-append is js ctx call k =
      simp chain_unary_client-foldr
        (ap (λ (f : Invoker Ctx Call R). f ctx call) (foldr-append bc_client k is js))
