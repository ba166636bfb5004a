-- ===== src/Client/Packages.antt =====
-- api/packages.ts: the calls of the packages, but for the signature of an entrypoint. The parameter `encode` is
-- encodeURIComponent.
use bv_orchestrator.Json.{Json}
use bv_orchestrator.Queries.{Params, text_param}
use bv_orchestrator.Client.{
  file_body, Call, with_headers, bearer_headers, bearer_json, without_body, with_body, read_error,
  read_detailed, read_void, is_success,
}
use bv_orchestrator.Common.{
  nat_eq, string_eq, if◌then◌else◌, ◌+++◌, or_text, show_nat, ℕ, String, ◌⊎◌, inl, inr, Bool,
  Option, [],
}

abbrev package_params : String → Bool → String → String → Params
package_params search active_only name type = text_param "search" search (
    text_param "active_only" (if active_only then "true" else "")
      (text_param "name" name (text_param "type" type [])))

module _ (parse : String → String ⊎ Json) (token : Option String) where
  -- `uploadPackage`, of the file of that name
  abbrev pub upload_package : String → Call (Option Json)
  upload_package file = record {
    request =
        with_headers
          (λ h. record (without_body "POST" "/api/packages/upload" [] h) { body = file_body file })
          (bearer_headers token);
    receive = read_detailed parse;
  }

  -- `fetchPackages`; a parameter that is missing is "" or false
  abbrev pub fetch_packages : String → Bool → String → String → Call (Option Json)
  fetch_packages search active_only name type = record {
    request =
        with_headers
          (without_body "GET" "/api/packages/" (package_params search active_only name type))
          (bearer_headers token);
    receive = read_detailed parse;
  }

  abbrev pub update_package : ℕ → Json → Call (Option Json)
  update_package id payload = record {
    request =
        with_headers (with_body "PUT" ("/api/packages/" +++ show_nat id) payload)
          (bearer_json token);
    receive = read_detailed parse;
  }

  abbrev pub delete_package : ℕ → Call (Option Json)
  delete_package id = record {
    request =
        with_headers (without_body "DELETE" ("/api/packages/" +++ show_nat id) [])
          (bearer_headers token);
    receive = read_void (read_error parse);
  }

  -- `downloadPackageVersion`; its value is the name under which the file is saved, and a filename that is missing
  -- is "".
  abbrev pub download_package_version : (String → String) → ℕ → String → String → Call String
  download_package_version encode package_id version filename = record {
    request =
        with_headers
          (without_body "GET"
            ("/api/packages/"
              +++ show_nat package_id
              +++ "/versions/"
              +++ encode version
              +++ "/download")
            [])
          (bearer_headers token);
    receive = λ r.
        if is_success r
        then inr (
            or_text filename
              ("package-" +++ show_nat package_id +++ "-" +++ version +++ ".bvpackage"))
        else inl (read_error parse r.text);
  }
