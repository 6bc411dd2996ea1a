-- ===== src/Request/Chunks/Finished.antt =====
-- The end of processBodySlice on a body that is decoded.
use mathlib.Core.Path.{subst}
use left_hook_roll.DataStore.Contents.{IsStored, contents}
use left_hook_roll.DataStore.Copies.{assign}
use left_hook_roll.DataStore.Duplicates.{Duplicates, assign-Duplicates}
use left_hook_roll.DataStore.Files.{reset_read_position}
use left_hook_roll.DataStore.Kernel.{DataStore}
use left_hook_roll.DataStore.Readable.{IsReadable}
use left_hook_roll.DataStore.Reads.{Rewound, reset_read_position-Rewound}
use left_hook_roll.Dict.{insert}
use left_hook_roll.Prelude.Result.{Result, ok, threw, ◌>>◌}
use left_hook_roll.Prelude.{
  ◌≡◌, refl, Bool, true, false, [], if◌then◌else◌, length, ap, sym, ◌∙◌, not,
}
use left_hook_roll.Request.Body.{on_body, finish_slice}
use left_hook_roll.Request.State.{Request}
use left_hook_roll.Text.Numbers.{show}
use left_hook_roll.Text.{Bytes, codes}

-- The slice is done: the body is the decoded one, and its size is the content length.
pub record IsDecodedBody (body : Bytes) (r : Request) (x : Result Request Bool) : Type 0 where
  pub request : Request
  pub returns : x ≡ ok true request
  pub contents_are : contents request.body ≡ body
  pub readable : IsReadable request.body
  pub at_start : request.body.read_offset ≡ 0
  pub headers_are : request.headers ≡ insert (codes "content-length") (show (length body)) r.headers
  pub state_is : request.req_state ≡ r.req_state

abbrev pub with_body : Request → DataStore → Request
with_body r t = record r { body = t }

-- The end of the slice, the decoded body being whole.
pub finish_slice-IsDecodedBody :
    (r : Request)
    → r.is_body_processed ≡ true
    → IsStored r.decoded_body
    → r.body.replies ≡ []
    → IsDecodedBody (contents r.decoded_body) r (finish_slice r)
unfolding finish_slice
finish_slice-IsDecodedBody r p v e =
    subst
      (λ b. IsDecodedBody (contents r.decoded_body) r (
        if not b
        then ok false r
        else (do
          on_body (assign r.decoded_body)
          (λ s. ok tt (record s { chunk_buffer = [] }))
          on_body reset_read_position
          (λ s. ok true (ended s)))
            r))
      (sym p)
      (assigned (assign r.decoded_body r.body) (assign-Duplicates r.decoded_body r.body v e))
  where
    ended : Request → Request
    ended s = record s {
      headers = insert (codes "content-length") (show s.body.current_size) s.headers;
    }

    rewound :
        (t : DataStore)
        → contents t ≡ contents r.decoded_body
        → Rewound t
        → IsDecodedBody
            (contents r.decoded_body)
            r
            (elim (elim (reset_read_position t) as (λ x. Result Request (Unit {0})) [
              | ok a s ↦ ok a (record r { body = s; chunk_buffer = [] })
              | threw x s ↦ threw x (record r { body = s; chunk_buffer = [] })
            ])
              as (λ x. Result Request Bool) [ ok a s ↦ ok true (ended s) | threw x s ↦ threw x s ])
    rewound t c w = record {
      request = ended (record r { body = w.store; chunk_buffer = [] });
      returns =
          ap
            (λ q.
              elim (elim q as (λ x. Result Request (Unit {0})) [
                | ok a s ↦ ok a (record r { body = s; chunk_buffer = [] })
                | threw x s ↦ threw x (record r { body = s; chunk_buffer = [] })
              ])
                as (λ x. Result Request Bool) [
                  | ok a s ↦ ok true (ended s)
                  | threw x s ↦ threw x s
                ])
            w.returns;
      contents_are = w.contents_are ∙ c;
      readable = w.readable;
      at_start = w.at_start;
      headers_are =
          ap (λ n. insert (codes "content-length") (show n) r.headers)
            (w.readable.stored.size_ok ∙ ap length (w.contents_are ∙ c));
      state_is = refl;
    }

    assigned :
        (x : Result DataStore (Unit {0}))
        → Duplicates r.decoded_body x
        → IsDecodedBody
            (contents r.decoded_body)
            r
            (elim (elim x as (λ x. Result Request (Unit {0})) [
              | ok a s ↦ ok a (with_body r s)
              | threw y s ↦ threw y (with_body r s)
            ])
              as (λ x. Result Request Bool) [
                | ok a s ↦
                    (elim (elim (reset_read_position s.body) as (λ x. Result Request (Unit {0})) [
                      | ok b t ↦ ok b (record s { body = t; chunk_buffer = [] })
                      | threw y t ↦ threw y (record s { body = t; chunk_buffer = [] })
                    ])
                      as (λ x. Result Request Bool) [
                        | ok b t ↦ ok true (ended t)
                        | threw y t ↦ threw y t
                      ])
                | threw y s ↦ threw y s
              ])
    assigned (ok a t) (c, w, m, o, q) = rewound t c (reset_read_position-Rewound t w q)
    assigned (threw y t) h = absurd h
