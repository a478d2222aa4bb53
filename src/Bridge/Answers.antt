-- ===== src/Bridge/Answers.antt =====
-- How the bridge answers a request.
use agent_souk_server.Bridge.{
  Finish, finished, refused, failed_with, cancelled, chunk_frame, stream_frames, Llm, answer,
  serve_one,
}
use agent_souk_server.Base.{String, ◌≡◌, refl, ap, ◌≢◌, Option, none, some, List, [], ◌∷◌, ◌++◌}
use agent_souk_server.Base.Json.{Json, str, Fields, get}

-- A frame that carries one chunk of the handler's.
pub record IsChunk (request chunk : Json) (frame : Fields) : Type 0 where
  pub named : get "requestId" frame ≡ request
  pub kind : get "type" frame ≡ str "chunk"
  pub carries : get "data" frame ≡ chunk

-- One such frame for each chunk, in the same order.
abbrev pub AreChunks : Json → List Json → List Fields → Type 0
AreChunks request [] [] = Unit
AreChunks request (c ∷ cs) (f ∷ fs) = IsChunk request c f × AreChunks request cs fs
AreChunks request _ _ = ⊥

-- The frame that ends an answer.
pub record IsLast (request : Json) (kind_of_end : String) (frame : Fields) : Type 0 where
  pub named : get "requestId" frame ≡ request
  pub kind : get "type" frame ≡ str kind_of_end

abbrev pub ends_as : Finish → String
ends_as finished = "done"
ends_as _ = "error"

Ends : Json → List Json → String → List Fields → Type 0
Ends request chunks kind_of_end frames =
    (fs : List Fields) × (final : Fields) × (frames ≡ fs ++ final ∷ [])
    × AreChunks request chunks fs
    × IsLast request kind_of_end final

stream_frames-Ends :
    (request : Json) (chunks : List Json) (how : Finish)
    → how ≢ cancelled
    → Ends request chunks (ends_as how) (stream_frames request chunks how)
unfolding Ends
stream_frames-Ends request [] finished n = ([], _, refl, tt, record { named = refl; kind = refl })
stream_frames-Ends request [] (refused v) n =
    ([], _, refl, tt, record { named = refl; kind = refl })
stream_frames-Ends request [] (failed_with why) n =
    ([], _, refl, tt, record { named = refl; kind = refl })
stream_frames-Ends request [] cancelled n = absurd (n refl)
stream_frames-Ends request (c ∷ chunks) how n =
    let (fs, final, e, are, is) = stream_frames-Ends request chunks how n in
    (
      chunk_frame request c ∷ fs,
      final,
      ap (◌∷◌ (chunk_frame request c)) e,
      (record { named = refl; kind = refl; carries = refl }, are),
      is,
    )

module _ (llm : Llm) where
  -- What the handler gives for a request, nothing for one that is not well formed, and how that ends.
  abbrev pub given : Option llm.Delivered → List Json
  given none = []
  given (some d) = (llm.handler d).0

  abbrev pub end_of : Option llm.Delivered → String
  end_of none = "error"
  end_of (some d) = ends_as (llm.handler d).1

  -- Every request is answered, whether it is well formed or not and however its handler ends, short
  -- of being cancelled: a frame of type `chunk` for each chunk of the handler's, in order and with
  -- its data, and then exactly one more, of type `done` if the handler finished and `error` if it
  -- refused, failed, or was not called for a malformed request; all under the request's id.
  pub serve_one-Ends :
      (request : Json) (frame : Fields)
      → ((d : llm.Delivered) → (llm.handler d).1 ≢ cancelled)
      → (fs : List Fields) × (final : Fields) × (serve_one llm request frame ≡ fs ++ final ∷ [])
        × AreChunks request (given (llm.validate frame)) fs
        × IsLast request (end_of (llm.validate frame)) final
  unfolding serve_one Ends
  serve_one-Ends request frame n = replied (llm.validate frame)
    where
      replied :
          (o : Option llm.Delivered) → Ends request (given o) (end_of o) (answer llm request o)
      replied none = ([], _, refl, tt, record { named = refl; kind = refl })
      replied (some d) = stream_frames-Ends request (llm.handler d).0 (llm.handler d).1 (n d)
