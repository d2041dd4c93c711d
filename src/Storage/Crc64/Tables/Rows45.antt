-- ===== src/Storage/Crc64/Tables/Rows45.antt =====
-- The rows 4 and 5 of the table `Crc64MU32` of crypt.cpp, with 256 entries each.
use azure_sdk_for_cpp.Base.{ℕ, List, [], ◌∷◌}

-- The entries from 4 * 256.
unfoldable pub mu32_row4 : List ℕ
mu32_row4 =
    0x0000000000000000 ∷ 0x3ea616bd2ae10d77 ∷ 0x7d4c2d7a55c21aee ∷ 0x43ea3bc77f231799
    ∷ 0xfa985af4ab8435dc ∷ 0xc43e4c49816538ab ∷ 0x87d4778efe462f32 ∷ 0xb9726133d4a72245
    ∷ 0xc1e993ba0f9ff8d3 ∷ 0xff4f8507257ef5a4 ∷ 0xbca5bec05a5de23d ∷ 0x8203a87d70bcef4a
    ∷ 0x3b71c94ea41bcd0f ∷ 0x05d7dff38efac078 ∷ 0x463de434f1d9d7e1 ∷ 0x789bf289db38da96
    ∷ 0xb70a012747a862cd ∷ 0x89ac179a6d496fba ∷ 0xca462c5d126a7823 ∷ 0xf4e03ae0388b7554
    ∷ 0x4d925bd3ec2c5711 ∷ 0x73344d6ec6cd5a66 ∷ 0x30de76a9b9ee4dff ∷ 0x0e786014930f4088
    ∷ 0x76e3929d48379a1e ∷ 0x4845842062d69769 ∷ 0x0bafbfe71df580f0 ∷ 0x3509a95a37148d87
    ∷ 0x8c7bc869e3b3afc2 ∷ 0xb2ddded4c952a2b5 ∷ 0xf137e513b671b52c ∷ 0xcf91f3ae9c90b85b
    ∷ 0x5acd241dd7c756f1 ∷ 0x646b32a0fd265b86 ∷ 0x2781096782054c1f ∷ 0x19271fdaa8e44168
    ∷ 0xa0557ee97c43632d ∷ 0x9ef3685456a26e5a ∷ 0xdd195393298179c3 ∷ 0xe3bf452e036074b4
    ∷ 0x9b24b7a7d858ae22 ∷ 0xa582a11af2b9a355 ∷ 0xe6689add8d9ab4cc ∷ 0xd8ce8c60a77bb9bb
    ∷ 0x61bced5373dc9bfe ∷ 0x5f1afbee593d9689 ∷ 0x1cf0c029261e8110 ∷ 0x2256d6940cff8c67
    ∷ 0xedc7253a906f343c ∷ 0xd3613387ba8e394b ∷ 0x908b0840c5ad2ed2 ∷ 0xae2d1efdef4c23a5
    ∷ 0x175f7fce3beb01e0 ∷ 0x29f96973110a0c97 ∷ 0x6a1352b46e291b0e ∷ 0x54b5440944c81679
    ∷ 0x2c2eb6809ff0ccef ∷ 0x1288a03db511c198 ∷ 0x51629bfaca32d601 ∷ 0x6fc48d47e0d3db76
    ∷ 0xd6b6ec743474f933 ∷ 0xe810fac91e95f444 ∷ 0xabfac10e61b6e3dd ∷ 0x955cd7b34b57eeaa
    ∷ 0xb59a483baf8eade2 ∷ 0x8b3c5e86856fa095 ∷ 0xc8d66541fa4cb70c ∷ 0xf67073fcd0adba7b
    ∷ 0x4f0212cf040a983e ∷ 0x71a404722eeb9549 ∷ 0x324e3fb551c882d0 ∷ 0x0ce829087b298fa7
    ∷ 0x7473db81a0115531 ∷ 0x4ad5cd3c8af05846 ∷ 0x093ff6fbf5d34fdf ∷ 0x3799e046df3242a8
    ∷ 0x8eeb81750b9560ed ∷ 0xb04d97c821746d9a ∷ 0xf3a7ac0f5e577a03 ∷ 0xcd01bab274b67774
    ∷ 0x0290491ce826cf2f ∷ 0x3c365fa1c2c7c258 ∷ 0x7fdc6466bde4d5c1 ∷ 0x417a72db9705d8b6
    ∷ 0xf80813e843a2faf3 ∷ 0xc6ae05556943f784 ∷ 0x85443e921660e01d ∷ 0xbbe2282f3c81ed6a
    ∷ 0xc379daa6e7b937fc ∷ 0xfddfcc1bcd583a8b ∷ 0xbe35f7dcb27b2d12 ∷ 0x8093e161989a2065
    ∷ 0x39e180524c3d0220 ∷ 0x074796ef66dc0f57 ∷ 0x44adad2819ff18ce ∷ 0x7a0bbb95331e15b9
    ∷ 0xef576c267849fb13 ∷ 0xd1f17a9b52a8f664 ∷ 0x921b415c2d8be1fd ∷ 0xacbd57e1076aec8a
    ∷ 0x15cf36d2d3cdcecf ∷ 0x2b69206ff92cc3b8 ∷ 0x68831ba8860fd421 ∷ 0x56250d15aceed956
    ∷ 0x2ebeff9c77d603c0 ∷ 0x1018e9215d370eb7 ∷ 0x53f2d2e62214192e ∷ 0x6d54c45b08f51459
    ∷ 0xd426a568dc52361c ∷ 0xea80b3d5f6b33b6b ∷ 0xa96a881289902cf2 ∷ 0x97cc9eafa3712185
    ∷ 0x585d6d013fe199de ∷ 0x66fb7bbc150094a9 ∷ 0x2511407b6a238330 ∷ 0x1bb756c640c28e47
    ∷ 0xa2c537f59465ac02 ∷ 0x9c632148be84a175 ∷ 0xdf891a8fc1a7b6ec ∷ 0xe12f0c32eb46bb9b
    ∷ 0x99b4febb307e610d ∷ 0xa712e8061a9f6c7a ∷ 0xe4f8d3c165bc7be3 ∷ 0xda5ec57c4f5d7694
    ∷ 0x632ca44f9bfa54d1 ∷ 0x5d8ab2f2b11b59a6 ∷ 0x1e608935ce384e3f ∷ 0x20c69f88e4d94348
    ∷ 0x5fedb624078ac8af ∷ 0x614ba0992d6bc5d8 ∷ 0x22a19b5e5248d241 ∷ 0x1c078de378a9df36
    ∷ 0xa575ecd0ac0efd73 ∷ 0x9bd3fa6d86eff004 ∷ 0xd839c1aaf9cce79d ∷ 0xe69fd717d32deaea
    ∷ 0x9e04259e0815307c ∷ 0xa0a2332322f43d0b ∷ 0xe34808e45dd72a92 ∷ 0xddee1e59773627e5
    ∷ 0x649c7f6aa39105a0 ∷ 0x5a3a69d7897008d7 ∷ 0x19d05210f6531f4e ∷ 0x277644addcb21239
    ∷ 0xe8e7b7034022aa62 ∷ 0xd641a1be6ac3a715 ∷ 0x95ab9a7915e0b08c ∷ 0xab0d8cc43f01bdfb
    ∷ 0x127fedf7eba69fbe ∷ 0x2cd9fb4ac14792c9 ∷ 0x6f33c08dbe648550 ∷ 0x5195d63094858827
    ∷ 0x290e24b94fbd52b1 ∷ 0x17a83204655c5fc6 ∷ 0x544209c31a7f485f ∷ 0x6ae41f7e309e4528
    ∷ 0xd3967e4de439676d ∷ 0xed3068f0ced86a1a ∷ 0xaeda5337b1fb7d83 ∷ 0x907c458a9b1a70f4
    ∷ 0x05209239d04d9e5e ∷ 0x3b868484faac9329 ∷ 0x786cbf43858f84b0 ∷ 0x46caa9feaf6e89c7
    ∷ 0xffb8c8cd7bc9ab82 ∷ 0xc11ede705128a6f5 ∷ 0x82f4e5b72e0bb16c ∷ 0xbc52f30a04eabc1b
    ∷ 0xc4c90183dfd2668d ∷ 0xfa6f173ef5336bfa ∷ 0xb9852cf98a107c63 ∷ 0x87233a44a0f17114
    ∷ 0x3e515b7774565351 ∷ 0x00f74dca5eb75e26 ∷ 0x431d760d219449bf ∷ 0x7dbb60b00b7544c8
    ∷ 0xb22a931e97e5fc93 ∷ 0x8c8c85a3bd04f1e4 ∷ 0xcf66be64c227e67d ∷ 0xf1c0a8d9e8c6eb0a
    ∷ 0x48b2c9ea3c61c94f ∷ 0x7614df571680c438 ∷ 0x35fee49069a3d3a1 ∷ 0x0b58f22d4342ded6
    ∷ 0x73c300a4987a0440 ∷ 0x4d651619b29b0937 ∷ 0x0e8f2ddecdb81eae ∷ 0x30293b63e75913d9
    ∷ 0x895b5a5033fe319c ∷ 0xb7fd4ced191f3ceb ∷ 0xf417772a663c2b72 ∷ 0xcab161974cdd2605
    ∷ 0xea77fe1fa804654d ∷ 0xd4d1e8a282e5683a ∷ 0x973bd365fdc67fa3 ∷ 0xa99dc5d8d72772d4
    ∷ 0x10efa4eb03805091 ∷ 0x2e49b25629615de6 ∷ 0x6da3899156424a7f ∷ 0x53059f2c7ca34708
    ∷ 0x2b9e6da5a79b9d9e ∷ 0x15387b188d7a90e9 ∷ 0x56d240dff2598770 ∷ 0x68745662d8b88a07
    ∷ 0xd10637510c1fa842 ∷ 0xefa021ec26fea535 ∷ 0xac4a1a2b59ddb2ac ∷ 0x92ec0c96733cbfdb
    ∷ 0x5d7dff38efac0780 ∷ 0x63dbe985c54d0af7 ∷ 0x2031d242ba6e1d6e ∷ 0x1e97c4ff908f1019
    ∷ 0xa7e5a5cc4428325c ∷ 0x9943b3716ec93f2b ∷ 0xdaa988b611ea28b2 ∷ 0xe40f9e0b3b0b25c5
    ∷ 0x9c946c82e033ff53 ∷ 0xa2327a3fcad2f224 ∷ 0xe1d841f8b5f1e5bd ∷ 0xdf7e57459f10e8ca
    ∷ 0x660c36764bb7ca8f ∷ 0x58aa20cb6156c7f8 ∷ 0x1b401b0c1e75d061 ∷ 0x25e60db13494dd16
    ∷ 0xb0bada027fc333bc ∷ 0x8e1cccbf55223ecb ∷ 0xcdf6f7782a012952 ∷ 0xf350e1c500e02425
    ∷ 0x4a2280f6d4470660 ∷ 0x7484964bfea60b17 ∷ 0x376ead8c81851c8e ∷ 0x09c8bb31ab6411f9
    ∷ 0x715349b8705ccb6f ∷ 0x4ff55f055abdc618 ∷ 0x0c1f64c2259ed181 ∷ 0x32b9727f0f7fdcf6
    ∷ 0x8bcb134cdbd8feb3 ∷ 0xb56d05f1f139f3c4 ∷ 0xf6873e368e1ae45d ∷ 0xc821288ba4fbe92a
    ∷ 0x07b0db25386b5171 ∷ 0x3916cd98128a5c06 ∷ 0x7afcf65f6da94b9f ∷ 0x445ae0e2474846e8
    ∷ 0xfd2881d193ef64ad ∷ 0xc38e976cb90e69da ∷ 0x8064acabc62d7e43 ∷ 0xbec2ba16eccc7334
    ∷ 0xc659489f37f4a9a2 ∷ 0xf8ff5e221d15a4d5 ∷ 0xbb1565e56236b34c ∷ 0x85b3735848d7be3b
    ∷ 0x3cc1126b9c709c7e ∷ 0x026704d6b6919109 ∷ 0x418d3f11c9b28690 ∷ 0x7f2b29ace3538be7 ∷ []

-- The entries from 5 * 256.
unfoldable pub mu32_row5 : List ℕ
mu32_row5 =
    0x0000000000000000 ∷ 0x169489cc969951e5 ∷ 0x2d2913992d32a3ca ∷ 0x3bbd9a55bbabf22f
    ∷ 0x5a5227325a654794 ∷ 0x4cc6aefeccfc1671 ∷ 0x777b34ab7757e45e ∷ 0x61efbd67e1ceb5bb
    ∷ 0xb4a44e64b4ca8f28 ∷ 0xa230c7a82253decd ∷ 0x998d5dfd99f82ce2 ∷ 0x8f19d4310f617d07
    ∷ 0xeef66956eeafc8bc ∷ 0xf862e09a78369959 ∷ 0xc3df7acfc39d6b76 ∷ 0xd54bf30355043a93
    ∷ 0x5d91ba9a31028d3b ∷ 0x4b053356a79bdcde ∷ 0x70b8a9031c302ef1 ∷ 0x662c20cf8aa97f14
    ∷ 0x07c39da86b67caaf ∷ 0x11571464fdfe9b4a ∷ 0x2aea8e3146556965 ∷ 0x3c7e07fdd0cc3880
    ∷ 0xe935f4fe85c80213 ∷ 0xffa17d32135153f6 ∷ 0xc41ce767a8faa1d9 ∷ 0xd2886eab3e63f03c
    ∷ 0xb367d3ccdfad4587 ∷ 0xa5f35a0049341462 ∷ 0x9e4ec055f29fe64d ∷ 0x88da49996406b7a8
    ∷ 0xbb23753462051a76 ∷ 0xadb7fcf8f49c4b93 ∷ 0x960a66ad4f37b9bc ∷ 0x809eef61d9aee859
    ∷ 0xe171520638605de2 ∷ 0xf7e5dbcaaef90c07 ∷ 0xcc58419f1552fe28 ∷ 0xdaccc85383cbafcd
    ∷ 0x0f873b50d6cf955e ∷ 0x1913b29c4056c4bb ∷ 0x22ae28c9fbfd3694 ∷ 0x343aa1056d646771
    ∷ 0x55d51c628caad2ca ∷ 0x434195ae1a33832f ∷ 0x78fc0ffba1987100 ∷ 0x6e688637370120e5
    ∷ 0xe6b2cfae5307974d ∷ 0xf0264662c59ec6a8 ∷ 0xcb9bdc377e353487 ∷ 0xdd0f55fbe8ac6562
    ∷ 0xbce0e89c0962d0d9 ∷ 0xaa7461509ffb813c ∷ 0x91c9fb0524507313 ∷ 0x875d72c9b2c922f6
    ∷ 0x521681cae7cd1865 ∷ 0x4482080671544980 ∷ 0x7f3f9253caffbbaf ∷ 0x69ab1b9f5c66ea4a
    ∷ 0x0844a6f8bda85ff1 ∷ 0x1ed02f342b310e14 ∷ 0x256db561909afc3b ∷ 0x33f93cad0603adde
    ∷ 0x429fcc3b9c9da787 ∷ 0x540b45f70a04f662 ∷ 0x6fb6dfa2b1af044d ∷ 0x7922566e273655a8
    ∷ 0x18cdeb09c6f8e013 ∷ 0x0e5962c55061b1f6 ∷ 0x35e4f890ebca43d9 ∷ 0x2370715c7d53123c
    ∷ 0xf63b825f285728af ∷ 0xe0af0b93bece794a ∷ 0xdb1291c605658b65 ∷ 0xcd86180a93fcda80
    ∷ 0xac69a56d72326f3b ∷ 0xbafd2ca1e4ab3ede ∷ 0x8140b6f45f00ccf1 ∷ 0x97d43f38c9999d14
    ∷ 0x1f0e76a1ad9f2abc ∷ 0x099aff6d3b067b59 ∷ 0x3227653880ad8976 ∷ 0x24b3ecf41634d893
    ∷ 0x455c5193f7fa6d28 ∷ 0x53c8d85f61633ccd ∷ 0x6875420adac8cee2 ∷ 0x7ee1cbc64c519f07
    ∷ 0xabaa38c51955a594 ∷ 0xbd3eb1098fccf471 ∷ 0x86832b5c3467065e ∷ 0x9017a290a2fe57bb
    ∷ 0xf1f81ff74330e200 ∷ 0xe76c963bd5a9b3e5 ∷ 0xdcd10c6e6e0241ca ∷ 0xca4585a2f89b102f
    ∷ 0xf9bcb90ffe98bdf1 ∷ 0xef2830c36801ec14 ∷ 0xd495aa96d3aa1e3b ∷ 0xc201235a45334fde
    ∷ 0xa3ee9e3da4fdfa65 ∷ 0xb57a17f13264ab80 ∷ 0x8ec78da489cf59af ∷ 0x985304681f56084a
    ∷ 0x4d18f76b4a5232d9 ∷ 0x5b8c7ea7dccb633c ∷ 0x6031e4f267609113 ∷ 0x76a56d3ef1f9c0f6
    ∷ 0x174ad0591037754d ∷ 0x01de599586ae24a8 ∷ 0x3a63c3c03d05d687 ∷ 0x2cf74a0cab9c8762
    ∷ 0xa42d0395cf9a30ca ∷ 0xb2b98a595903612f ∷ 0x8904100ce2a89300 ∷ 0x9f9099c07431c2e5
    ∷ 0xfe7f24a795ff775e ∷ 0xe8ebad6b036626bb ∷ 0xd356373eb8cdd494 ∷ 0xc5c2bef22e548571
    ∷ 0x10894df17b50bfe2 ∷ 0x061dc43dedc9ee07 ∷ 0x3da05e6856621c28 ∷ 0x2b34d7a4c0fb4dcd
    ∷ 0x4adb6ac32135f876 ∷ 0x5c4fe30fb7aca993 ∷ 0x67f2795a0c075bbc ∷ 0x7166f0969a9e0a59
    ∷ 0x853f9877393b4f0e ∷ 0x93ab11bbafa21eeb ∷ 0xa8168bee1409ecc4 ∷ 0xbe8202228290bd21
    ∷ 0xdf6dbf45635e089a ∷ 0xc9f93689f5c7597f ∷ 0xf244acdc4e6cab50 ∷ 0xe4d02510d8f5fab5
    ∷ 0x319bd6138df1c026 ∷ 0x270f5fdf1b6891c3 ∷ 0x1cb2c58aa0c363ec ∷ 0x0a264c46365a3209
    ∷ 0x6bc9f121d79487b2 ∷ 0x7d5d78ed410dd657 ∷ 0x46e0e2b8faa62478 ∷ 0x50746b746c3f759d
    ∷ 0xd8ae22ed0839c235 ∷ 0xce3aab219ea093d0 ∷ 0xf5873174250b61ff ∷ 0xe313b8b8b392301a
    ∷ 0x82fc05df525c85a1 ∷ 0x94688c13c4c5d444 ∷ 0xafd516467f6e266b ∷ 0xb9419f8ae9f7778e
    ∷ 0x6c0a6c89bcf34d1d ∷ 0x7a9ee5452a6a1cf8 ∷ 0x41237f1091c1eed7 ∷ 0x57b7f6dc0758bf32
    ∷ 0x36584bbbe6960a89 ∷ 0x20ccc277700f5b6c ∷ 0x1b715822cba4a943 ∷ 0x0de5d1ee5d3df8a6
    ∷ 0x3e1ced435b3e5578 ∷ 0x2888648fcda7049d ∷ 0x1335feda760cf6b2 ∷ 0x05a17716e095a757
    ∷ 0x644eca71015b12ec ∷ 0x72da43bd97c24309 ∷ 0x4967d9e82c69b126 ∷ 0x5ff35024baf0e0c3
    ∷ 0x8ab8a327eff4da50 ∷ 0x9c2c2aeb796d8bb5 ∷ 0xa791b0bec2c6799a ∷ 0xb1053972545f287f
    ∷ 0xd0ea8415b5919dc4 ∷ 0xc67e0dd92308cc21 ∷ 0xfdc3978c98a33e0e ∷ 0xeb571e400e3a6feb
    ∷ 0x638d57d96a3cd843 ∷ 0x7519de15fca589a6 ∷ 0x4ea44440470e7b89 ∷ 0x5830cd8cd1972a6c
    ∷ 0x39df70eb30599fd7 ∷ 0x2f4bf927a6c0ce32 ∷ 0x14f663721d6b3c1d ∷ 0x0262eabe8bf26df8
    ∷ 0xd72919bddef6576b ∷ 0xc1bd9071486f068e ∷ 0xfa000a24f3c4f4a1 ∷ 0xec9483e8655da544
    ∷ 0x8d7b3e8f849310ff ∷ 0x9befb743120a411a ∷ 0xa0522d16a9a1b335 ∷ 0xb6c6a4da3f38e2d0
    ∷ 0xc7a0544ca5a6e889 ∷ 0xd134dd80333fb96c ∷ 0xea8947d588944b43 ∷ 0xfc1dce191e0d1aa6
    ∷ 0x9df2737effc3af1d ∷ 0x8b66fab2695afef8 ∷ 0xb0db60e7d2f10cd7 ∷ 0xa64fe92b44685d32
    ∷ 0x73041a28116c67a1 ∷ 0x659093e487f53644 ∷ 0x5e2d09b13c5ec46b ∷ 0x48b9807daac7958e
    ∷ 0x29563d1a4b092035 ∷ 0x3fc2b4d6dd9071d0 ∷ 0x047f2e83663b83ff ∷ 0x12eba74ff0a2d21a
    ∷ 0x9a31eed694a465b2 ∷ 0x8ca5671a023d3457 ∷ 0xb718fd4fb996c678 ∷ 0xa18c74832f0f979d
    ∷ 0xc063c9e4cec12226 ∷ 0xd6f74028585873c3 ∷ 0xed4ada7de3f381ec ∷ 0xfbde53b1756ad009
    ∷ 0x2e95a0b2206eea9a ∷ 0x3801297eb6f7bb7f ∷ 0x03bcb32b0d5c4950 ∷ 0x15283ae79bc518b5
    ∷ 0x74c787807a0bad0e ∷ 0x62530e4cec92fceb ∷ 0x59ee941957390ec4 ∷ 0x4f7a1dd5c1a05f21
    ∷ 0x7c832178c7a3f2ff ∷ 0x6a17a8b4513aa31a ∷ 0x51aa32e1ea915135 ∷ 0x473ebb2d7c0800d0
    ∷ 0x26d1064a9dc6b56b ∷ 0x30458f860b5fe48e ∷ 0x0bf815d3b0f416a1 ∷ 0x1d6c9c1f266d4744
    ∷ 0xc8276f1c73697dd7 ∷ 0xdeb3e6d0e5f02c32 ∷ 0xe50e7c855e5bde1d ∷ 0xf39af549c8c28ff8
    ∷ 0x9275482e290c3a43 ∷ 0x84e1c1e2bf956ba6 ∷ 0xbf5c5bb7043e9989 ∷ 0xa9c8d27b92a7c86c
    ∷ 0x21129be2f6a17fc4 ∷ 0x3786122e60382e21 ∷ 0x0c3b887bdb93dc0e ∷ 0x1aaf01b74d0a8deb
    ∷ 0x7b40bcd0acc43850 ∷ 0x6dd4351c3a5d69b5 ∷ 0x5669af4981f69b9a ∷ 0x40fd2685176fca7f
    ∷ 0x95b6d586426bf0ec ∷ 0x83225c4ad4f2a109 ∷ 0xb89fc61f6f595326 ∷ 0xae0b4fd3f9c002c3
    ∷ 0xcfe4f2b4180eb778 ∷ 0xd9707b788e97e69d ∷ 0xe2cde12d353c14b2 ∷ 0xf45968e1a3a54557 ∷ []
