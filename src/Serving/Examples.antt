-- ===== src/Serving/Examples.antt =====
-- Requests through the wrappers, on concrete handlers.
use realtime_order_inventory.Prelude.{◌≡◌, List, [], ◌∷◌}
use realtime_order_inventory.Serving.Writer.{
  Request, Action, write_header, write, connection, fresh, serve,
}
use realtime_order_inventory.Serving.Transparency.{bytes, passed, served_transparent}

abbrev get_order : Request
get_order = record {
  method = "GET";
  path = "/api/orders/7";
  url = "/api/orders/7";
  route_pattern = "/api/orders/{id}";
  authorization = "";
}

-- Two writes, and a status that comes too late.
abbrev late_status : List Action
late_status = write "[1," ∷ write "2]" ∷ write_header 500 ∷ []

served_transparent_example :
    ((passed "order-service" get_order late_status connection fresh).0
      ≡ serve connection late_status fresh)
    × ((passed "order-service" get_order late_status connection fresh).1.1.0.response_content_length
        ≡ bytes connection late_status fresh 0)
served_transparent_example =
    served_transparent "order-service" get_order late_status connection fresh
