-- ===== src/Http/Response.antt =====
-- pkg/response/response.go. The body's JSON is not encoded; `totalPages` is the ceiling of a
-- quotient of float64, which is exact below 2 ^ 53.
use realtime_order_inventory.Prelude.{
  ℕ, ◌+◌, ◌-◌, String, Bool, ◌&&◌, Option, none, some, List, [], ◌∷◌, leb, ltb,
}
use realtime_order_inventory.Prelude.Int.{ℤ}
use Prim.Native.Nat.{◌/◌}
use realtime_order_inventory.Serving.Writer.{Action, set_header, write_header, write}

pub record ErrorData : Type 0 where
  pub code : String
  pub message : String

pub record Meta : Type 0 where
  pub total : ℕ
  pub limit : ℕ
  pub offset : ℤ
  pub total_pages : ℕ

-- A status, with a Response, or with a PaginatedResponse where there is a Meta.
pub record Response (A : Type 0) : Type 0 where
  pub status : ℕ
  pub success : Bool
  pub payload : Option A
  pub error : Option ErrorData
  pub meta : Option Meta

unfoldable pub json : {A : Type 0} → ℕ → A → Response A
json status a = record {
  status = status;
  success = leb 200 status && ltb status 300;
  payload = some a;
  error = none;
  meta = none;
}

unfoldable pub error_response : {A : Type 0} → ℕ → String → String → Response A
error_response status code message = record {
  status = status;
  success = Bool.false;
  payload = none;
  error = some (record { code = code; message = message });
  meta = none;
}

-- int(math.Ceil(float64(total) / float64(limit)))
unfoldable pub total_pages : ℕ → ℕ → ℕ
total_pages total limit = (total + (limit - 1)) / limit

unfoldable pub json_with_pagination : {A : Type 0} → ℕ → A → ℕ → ℕ → ℤ → Response A
unfolding total_pages
json_with_pagination status a total limit offset = record {
  status = status;
  success = Bool.true;
  payload = some a;
  error = none;
  meta = some (record {
    total = total;
    limit = limit;
    offset = offset;
    total_pages = total_pages total limit;
  });
}

-- json.NewEncoder(w).Encode(resp): nothing is written of what cannot be encoded.
unfoldable pub encoded : Option String → List Action
encoded none = []
encoded (some text) = write text ∷ []

-- What JSON, Error and JSONWithPagination do with the ResponseWriter.
unfoldable pub written : {A : Type 0} → (Response A → Option String) → Response A → List Action
unfolding encoded
written encode response =
    set_header "Content-Type" "application/json"
    ∷ write_header response.status
    ∷ encoded (encode response)
