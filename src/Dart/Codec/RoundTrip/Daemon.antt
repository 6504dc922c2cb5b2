-- ===== src/Dart/Codec/RoundTrip/Daemon.antt =====
-- The Dart decoders of repositories and of the daemon's properties, on the bytes of the native
-- encoder.
use packagekit_dart.Base.{drop, signed64}
use packagekit_dart.Glaze.{boolean, u32, u64, string, strings}
use packagekit_dart.Glaze.Encode.{field_bytes, fields_bytes}
use packagekit_dart.Glaze.RoundTrip.{FitsFields}
use packagekit_dart.PkTypes
use packagekit_dart.PkTypes.{
  StructType, pk_package, pk_progress, pk_details, pk_update_detail, pk_repo_detail, pk_files,
  pk_error_code, pk_message, pk_eula_required, pk_repo_sig_required, pk_require_restart,
  pk_manager_props, Struct, meta, package_fields, progress_fields, details_fields,
  update_detail_fields, repo_detail_fields, files_fields, error_code_fields, message_fields,
  eula_required_fields, repo_sig_required_fields, require_restart_fields, manager_props_fields,
}
use packagekit_dart.Dart.Core.{value}
use packagekit_dart.Dart.Reader.{read_uint32, read_uint64, read_bool, read_string, read_string_list}
use packagekit_dart.Dart.Reader.Reads.{
  Reads, >>=-Reads, >>=-Reads_value, pure-Reads, read_uint32_lem, read_uint64_lem, read_bool_lem,
  read_string_lem, read_string_list_lem, string_of, strings_of,
}
use packagekit_dart.Dart.Codec.{decode_repo_detail, decode_manager_props}
use packagekit_dart.Dart.Codec.Meaning.{to_dart_repo_detail, to_dart_manager_props}

pub decode_repo_detail-Reads :
    (p : PkTypes.PkRepoDetail)
    → FitsFields repo_detail_fields p
    → Reads decode_repo_detail (fields_bytes repo_detail_fields p) (to_dart_repo_detail p)
unfolding decode_repo_detail to_dart_repo_detail
decode_repo_detail-Reads p h =
    >>=-Reads read_string _ (field_bytes string p.repo_id)
      (fields_bytes (drop 1 repo_detail_fields) p) (string_of p.repo_id) _
      (read_string_lem p.repo_id h.0)
      (λ repo_id.
        >>=-Reads read_string _ (field_bytes string p.description)
          (fields_bytes (drop 2 repo_detail_fields) p) (string_of p.description) _
          (read_string_lem p.description h.1.0)
          (λ description.
            >>=-Reads_value read_bool _ (field_bytes boolean p.enabled)
              (fields_bytes (drop 3 repo_detail_fields) p) p.enabled
              (value (record { repo_id = repo_id; description = description; enabled = p.enabled }))
              (read_bool_lem p.enabled) (pure-Reads _)))

pub decode_manager_props-Reads :
    (p : PkTypes.PkManagerProps)
    → FitsFields manager_props_fields p
    → Reads decode_manager_props (fields_bytes manager_props_fields p) (to_dart_manager_props p)
unfolding decode_manager_props to_dart_manager_props
decode_manager_props-Reads p h =
    >>=-Reads read_string _ (field_bytes string p.backend_name)
      (fields_bytes (drop 1 manager_props_fields) p) (string_of p.backend_name) _
      (read_string_lem p.backend_name h.0)
      (λ backend_name.
        >>=-Reads read_string _ (field_bytes string p.backend_description)
          (fields_bytes (drop 2 manager_props_fields) p) (string_of p.backend_description) _
          (read_string_lem p.backend_description h.1.0)
          (λ backend_description.
            >>=-Reads read_string _ (field_bytes string p.backend_author)
              (fields_bytes (drop 3 manager_props_fields) p) (string_of p.backend_author) _
              (read_string_lem p.backend_author h.1.1.0)
              (λ backend_author.
                >>=-Reads_value read_uint64 _ (field_bytes u64 p.roles)
                  (fields_bytes (drop 4 manager_props_fields) p) (signed64 p.roles) _
                  (read_uint64_lem p.roles h.1.1.1.0)
                  (>>=-Reads_value read_uint64 _ (field_bytes u64 p.filters)
                    (fields_bytes (drop 5 manager_props_fields) p) (signed64 p.filters) _
                    (read_uint64_lem p.filters h.1.1.1.1.0)
                    (>>=-Reads_value read_uint64 _ (field_bytes u64 p.groups)
                      (fields_bytes (drop 6 manager_props_fields) p) (signed64 p.groups) _
                      (read_uint64_lem p.groups h.1.1.1.1.1.0)
                      (>>=-Reads read_string_list _ (field_bytes strings p.mime_types)
                        (fields_bytes (drop 7 manager_props_fields) p) (strings_of p.mime_types) _
                        (read_string_list_lem p.mime_types h.1.1.1.1.1.1.0)
                        (λ mime_types.
                          >>=-Reads read_string _ (field_bytes string p.distro_id)
                            (fields_bytes (drop 8 manager_props_fields) p) (string_of p.distro_id) _
                            (read_string_lem p.distro_id h.1.1.1.1.1.1.1.0)
                            (λ distro_id.
                              >>=-Reads_value read_uint32 _ (field_bytes u32 p.network_state)
                                (fields_bytes (drop 9 manager_props_fields) p) p.network_state
                                (value (record {
                                  backend_name = backend_name;
                                  backend_description = backend_description;
                                  backend_author = backend_author;
                                  roles = signed64 p.roles;
                                  filters = signed64 p.filters;
                                  groups = signed64 p.groups;
                                  mime_types = mime_types;
                                  distro_id = distro_id;
                                  network_state = p.network_state;
                                  locked = p.locked;
                                  version_major = p.version_major;
                                  version_minor = p.version_minor;
                                  version_micro = p.version_micro;
                                }))
                                (read_uint32_lem p.network_state h.1.1.1.1.1.1.1.1.0)
                                (>>=-Reads_value read_bool _ (field_bytes boolean p.locked)
                                  (fields_bytes (drop 10 manager_props_fields) p) p.locked
                                  (value (record {
                                    backend_name = backend_name;
                                    backend_description = backend_description;
                                    backend_author = backend_author;
                                    roles = signed64 p.roles;
                                    filters = signed64 p.filters;
                                    groups = signed64 p.groups;
                                    mime_types = mime_types;
                                    distro_id = distro_id;
                                    network_state = p.network_state;
                                    locked = p.locked;
                                    version_major = p.version_major;
                                    version_minor = p.version_minor;
                                    version_micro = p.version_micro;
                                  }))
                                  (read_bool_lem p.locked)
                                  (>>=-Reads_value read_uint32 _ (field_bytes u32 p.version_major)
                                    (fields_bytes (drop 11 manager_props_fields) p) p.version_major
                                    (value (record {
                                      backend_name = backend_name;
                                      backend_description = backend_description;
                                      backend_author = backend_author;
                                      roles = signed64 p.roles;
                                      filters = signed64 p.filters;
                                      groups = signed64 p.groups;
                                      mime_types = mime_types;
                                      distro_id = distro_id;
                                      network_state = p.network_state;
                                      locked = p.locked;
                                      version_major = p.version_major;
                                      version_minor = p.version_minor;
                                      version_micro = p.version_micro;
                                    }))
                                    (read_uint32_lem p.version_major h.1.1.1.1.1.1.1.1.1.1.0)
                                    (>>=-Reads_value read_uint32 _ (field_bytes u32 p.version_minor)
                                      (fields_bytes (drop 12 manager_props_fields) p)
                                      p.version_minor
                                      (value (record {
                                        backend_name = backend_name;
                                        backend_description = backend_description;
                                        backend_author = backend_author;
                                        roles = signed64 p.roles;
                                        filters = signed64 p.filters;
                                        groups = signed64 p.groups;
                                        mime_types = mime_types;
                                        distro_id = distro_id;
                                        network_state = p.network_state;
                                        locked = p.locked;
                                        version_major = p.version_major;
                                        version_minor = p.version_minor;
                                        version_micro = p.version_micro;
                                      }))
                                      (read_uint32_lem p.version_minor h.1.1.1.1.1.1.1.1.1.1.1.0)
                                      (>>=-Reads_value read_uint32 _
                                        (field_bytes u32 p.version_micro)
                                        (fields_bytes (drop 13 manager_props_fields) p)
                                        p.version_micro
                                        (value (record {
                                          backend_name = backend_name;
                                          backend_description = backend_description;
                                          backend_author = backend_author;
                                          roles = signed64 p.roles;
                                          filters = signed64 p.filters;
                                          groups = signed64 p.groups;
                                          mime_types = mime_types;
                                          distro_id = distro_id;
                                          network_state = p.network_state;
                                          locked = p.locked;
                                          version_major = p.version_major;
                                          version_minor = p.version_minor;
                                          version_micro = p.version_micro;
                                        }))
                                        (read_uint32_lem p.version_micro
                                          h.1.1.1.1.1.1.1.1.1.1.1.1.0)
                                        (pure-Reads _)))))))))))))

-- Every decoder reads the encoding of its struct and gives the struct's meaning.
