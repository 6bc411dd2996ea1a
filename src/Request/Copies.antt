-- ===== src/Request/Copies.antt =====
-- src/Request.cpp: the copy constructor and the assignment, from another object.
use left_hook_roll.DataStore.Kernel.{Reply, DataStore}
use left_hook_roll.Request.State.{Request}
use left_hook_roll.Prelude.{refl, [], ◌≡◌, List}
use left_hook_roll.Prelude.Result.{◌>>◌, Made, made, unmade, ok, threw, M}
use left_hook_roll.Request.Body.{on_body, on_decoded}
use left_hook_roll.DataStore.Copies.{assign-copy, copy, assign}

-- Request(const Request& other), with the kernel's replies to the two stores of the new object.
unfoldable pub copy_request : Request → List Reply → List Reply → Made Request
unfolding copy
copy_request other body_replies decoded_replies = elim (copy other.body body_replies) [
  | threw e s ↦ unmade e
  | ok a s ↦ elim (copy other.decoded_body decoded_replies) [
    | threw e t ↦ unmade e
    | ok b t ↦ made (record other { body = s; decoded_body = t })
  ]
]

-- The members that are assigned before the stores, and those behind them.
abbrev members_before_stores : Request → M Request (Unit {0})
members_before_stores other r = ok tt (record r {
  method_name = other.method_name;
  url = other.url;
  protocol = other.protocol;
  query = other.query;
  content_length = other.content_length;
})

abbrev members_behind_stores : Request → M Request (Unit {0})
members_behind_stores other r = ok tt (record r {
  headers = other.headers;
  cookies = other.cookies;
  req_state = other.req_state;
  status_code = other.status_code;
  max_body_size = other.max_body_size;
  total_bytes_read = other.total_bytes_read;
  is_body_processed = other.is_body_processed;
  chunk_buffer = other.chunk_buffer;
})

-- operator=(const Request& other)
unfoldable pub assign_request : Request → M Request (Unit {0})
unfolding assign
assign_request other = do
  members_before_stores other
  on_body (assign other.body)
  on_decoded (assign other.decoded_body)
  members_behind_stores other

module _ (other : Request) (s t : DataStore) (body_copied : copy other.body [] ≡ ok tt s)
    (decoded_copied : copy other.decoded_body [] ≡ ok tt t) where
  pub copy_request-made :
      copy_request other [] [] ≡ made (record other { body = s; decoded_body = t })
  unfolding copy_request
  copy_request-made = rw (copy_request, body_copied, decoded_copied) refl

  pub assign_request-made :
      (r : Request)
      → r.body.replies ≡ []
      → r.decoded_body.replies ≡ []
      → assign_request other r ≡ ok tt (record other { body = s; decoded_body = t })
  unfolding assign_request
  assign_request-made r e f =
      rw
        (
          ◌>>◌,
          on_body,
          on_decoded,
          assign-copy other.body r.body s body_copied e,
          assign-copy other.decoded_body r.decoded_body t decoded_copied f,
        )
        refl
