-- ===== src/Tests/UnitTests.antt =====
-- The test programs of the repository, over the database in memory and the small cipher.
use secure_ros2_gateway.Prelude.{◌≡◌, true, false, none, some}
use secure_ros2_gateway.Storage.Toy.{memory_api, empty_memory}
use secure_ros2_gateway.Security.Toy.{blank, toy, toy-IsGcm}
use secure_ros2_gateway.UnitTests.StorageTest.{
  insert_and_query_telemetry, insert_and_query_telemetry_fails,
}
use secure_ros2_gateway.UnitTests.SecurityTest.{
  encrypt_decrypt_roundtrip_success, rejects_tampered_tag, security_tests_pass,
}
use secure_ros2_gateway.Tests.Storage.{plain}

insert_and_query_telemetry_fails_example :
    let outcome = insert_and_query_telemetry memory_api plain 24 empty_memory in
    (outcome.passed ≡ false) × (outcome.storage.db ≡ none) × (outcome.storage.insert_stmt ≡ none)
insert_and_query_telemetry_fails_example =
    insert_and_query_telemetry_fails memory_api plain 24 empty_memory

security_tests_pass_example :
    (encrypt_decrypt_roundtrip_success toy (some blank) (some blank) ≡ some true)
    × (rejects_tampered_tag toy (some blank) (some blank) ≡ some true)
security_tests_pass_example = security_tests_pass toy toy-IsGcm blank blank
